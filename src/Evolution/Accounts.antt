-- ===== src/Evolution/Accounts.antt =====
-- The calls of the evolution add risk and variant events to the ledger, and nothing else.
use i_am_not_a_trader_bot.Prelude.{
  ℕ, String, Bool, true, false, ◌≡◌, refl, sym, subst, Option, none, some, List, [], ◌∷◌, ◌++◌,
  length, ◌==◌, Bool-cases, inl, inr,
}
use i_am_not_a_trader_bot.Prelude.Result.{Result, ok, err}
use i_am_not_a_trader_bot.Prelude.Py.{Exec, pure, lift, gets, gets_result, ◌>>◌}
use i_am_not_a_trader_bot.Float.{Float}
use i_am_not_a_trader_bot.Config.{Config, Variant, Params, find_variant}
use i_am_not_a_trader_bot.Config.Validation.{load}
use i_am_not_a_trader_bot.Ledger.{
  Ledger, PnlRow, VariantEvent, evolution_spawn_skipped, record_variant_event, record_risk_event,
}
use i_am_not_a_trader_bot.Ledger.Admin.{
  IsAdmin, IsAdmin-refl, IsAdmin-trans, IsClerical, IsClerical->>=, record_variant_event-IsAdmin,
  record_risk_event-IsAdmin,
}
use i_am_not_a_trader_bot.Evolution.State.{
  Files, on_ledger, put, kept_or_restored, write_raw_config,
}
use i_am_not_a_trader_bot.Evolution.Splits.{
  Split, Sample, Proposal, Resample, entry_time_split, impulse_size_split, case_of,
}
use i_am_not_a_trader_bot.Evolution.Samples.{resolved_rows, samples_of}
use i_am_not_a_trader_bot.Evolution.Proposals.{
  settle_case, evaluate_split, evaluate_dimension, evaluate_catalog, review_rows, review_variant,
  is_reviewed, propose_all, propose_challengers,
}
use i_am_not_a_trader_bot.Evolution.Spawning.{
  demand, found, raw_config, child_of, add_child, has_room, is_single, new_params, spawn_from,
  spawn_challenger, caught, is_evolution_error, spawn_all, propose_and_spawn,
}

module _ {F : Type 0} where
  abbrev pub books : Files F → Ledger F
  books s = s.ledger

  abbrev Clerical : {A : Type 0} → Exec (Files F) A → Type 0
  Clerical m = IsClerical books m

  -- A call that leaves the ledger alone.
  silent :
      {A : Type 0} {m : Exec (Files F) A} → ((s : Files F) → (m s).1.ledger ≡ s.ledger) → Clerical m
  silent h = record {
    at = λ s. subst (λ (l : Ledger F). IsAdmin s.ledger l) (sym (h s)) (IsAdmin-refl s.ledger);
  }

module _ {F : Type 0} ⦃fl : Float F⦄ (now : F) where
  log_variant-IsClerical :
      {A : Type 0} (a : A) (id : String) (event : VariantEvent) (params : Params F)
      (parent : Option String)
      → Clerical (do on_ledger (record_variant_event now id event params parent); pure a)
  unfolding record_variant_event
  log_variant-IsClerical a id event params parent = record {
    at = λ s. record_variant_event-IsAdmin now id event params parent s.ledger;
  }

  module _ (resample : Resample F) where
    settle_case-IsClerical :
        (id : String) (params : Params F) (p : Option (Proposal F))
        → Clerical (settle_case resample now id params p)
    unfolding record_variant_event
    settle_case-IsClerical id params (some p) = silent (λ s. refl)
    settle_case-IsClerical id params none = record {
      at = λ s.
          record_variant_event-IsAdmin now id VariantEvent.proposal_rejected params none s.ledger;
    }

    evaluate_dimension-IsClerical :
        (id : String) (params : Params F) (split : Option (Split F))
        → Clerical (evaluate_dimension resample now id params split)
    unfolding evaluate_split
    evaluate_dimension-IsClerical id params none = silent (λ s. refl)
    evaluate_dimension-IsClerical id params (some split) =
        settle_case-IsClerical id params (case_of resample id split)

    evaluate_catalog-IsClerical :
        (v : Variant F) (samples : List (Sample F))
        → Clerical (evaluate_catalog resample now v samples)
    evaluate_catalog-IsClerical v samples =
        IsClerical->>=
          (evaluate_dimension-IsClerical v.id v.params (entry_time_split v.params samples))
          (λ by_time.
            IsClerical->>=
              (evaluate_dimension-IsClerical v.id v.params (impulse_size_split v.params samples))
              (λ by_impulse. silent (λ s. refl)))

    review_rows-IsClerical :
        (v : Variant F) (n : List (String × ℕ)) (rows : List (PnlRow F)) (few : Bool)
        → Clerical (review_rows resample now v n rows few)
    review_rows-IsClerical v n rows true = silent (λ s. refl)
    review_rows-IsClerical v n rows false =
        IsClerical->>=
          (silent {m = gets (λ (s : Files F). samples_of v.id s.ledger rows)} (λ s. refl))
          (λ samples.
            IsClerical->>= (evaluate_catalog-IsClerical v samples)
              (λ proposals. silent {m = pure (put v.id (length rows) n, proposals)} (λ s. refl)))

    review_variant-IsClerical :
        (v : Variant F) (n : List (String × ℕ)) (due : Bool)
        → Clerical (review_variant resample now v n due)
    review_variant-IsClerical v n false = silent (λ s. refl)
    review_variant-IsClerical v n true =
        IsClerical->>=
          (silent {m = gets_result (λ (s : Files F). resolved_rows v.id s.ledger)} (λ s. refl))
          (λ rows. review_rows-IsClerical v n rows _)

    propose_all-IsClerical :
        (vs : List (Variant F)) (n : List (String × ℕ)) → Clerical (propose_all resample now vs n)
    unfolding propose_all
    propose_all-IsClerical [] n = silent (λ s. refl)
    propose_all-IsClerical (v ∷ vs) n =
        IsClerical->>= (review_variant-IsClerical v n (is_reviewed v.status))
          (λ first. IsClerical->>= (propose_all-IsClerical vs first.0) (λ rest. silent (λ s. refl)))

    propose_challengers-IsClerical : Clerical (propose_challengers resample now)
    unfolding propose_challengers
    propose_challengers-IsClerical =
        IsClerical->>= (silent {m = gets_result (λ (s : Files F). load s.config_file)} (λ s. refl))
          (λ config.
            IsClerical->>= (silent {m = gets (λ (s : Files F). s.reviewed_n)} (λ s. refl))
              (λ before.
                IsClerical->>= (propose_all-IsClerical config.variants before)
                  (λ done. silent (λ s. refl))))

  kept_or_restored-ledger :
      (f : Option (Config F)) (s : Files F) (r : Result (Config F))
      → (kept_or_restored f s r).1.ledger ≡ s.ledger
  kept_or_restored-ledger f s (ok _) = refl
  kept_or_restored-ledger f s (err e) = refl

  write_raw_config-IsClerical : (raw : Config F) → Clerical (write_raw_config raw)
  write_raw_config-IsClerical raw = silent (λ s.
      kept_or_restored-ledger s.config_file (record s { config_file = some raw }) (load (some raw)))

  demand-IsClerical : (b : Bool) → Clerical (demand {S = Files F} b)
  demand-IsClerical true = silent (λ s. refl)
  demand-IsClerical false = silent (λ s. refl)

  add_child-IsClerical :
      (raw : Config F) (parent_id : String) (child : Variant F)
      → Clerical (add_child now raw parent_id child)
  add_child-IsClerical raw parent_id child =
      IsClerical->>=
        (write_raw_config-IsClerical (record raw { variants = raw.variants ++ child ∷ [] }))
        (λ _.
          log_variant-IsClerical child.id child.id VariantEvent.created child.params
            (some parent_id))

  spawn_from-IsClerical :
      (raw : Config F) (p : Proposal F) (parent : Variant F)
      → Clerical (spawn_from now raw p parent)
  spawn_from-IsClerical raw p parent = IsClerical->>= (demand-IsClerical (has_room raw p)) (λ _.
      IsClerical->>= (demand-IsClerical (is_single p parent)) (λ _.
        add_child-IsClerical raw p.parent_id (child_of raw.variants parent (new_params p parent))))

  spawn_challenger-IsClerical : (p : Proposal F) → Clerical (spawn_challenger now p)
  unfolding spawn_challenger
  spawn_challenger-IsClerical p =
      IsClerical->>= (demand-IsClerical (length p.params_diff == 1)) (λ _.
        IsClerical->>=
          (silent {m = gets_result (λ (s : Files F). raw_config s.config_file)} (λ s. refl))
          (λ raw.
            IsClerical->>=
              (silent {m = lift (found (find_variant p.parent_id raw.variants))} (λ s. refl))
              (λ parent. spawn_from-IsClerical raw p parent)))

  caught-IsAdmin :
      (l : Ledger F) (r : Result String) (s : Files F)
      → IsAdmin l s.ledger
      → IsAdmin l (caught now (r, s)).1.ledger
  unfolding record_risk_event
  caught-IsAdmin l (ok id) s h = h
  caught-IsAdmin l (err e) s h = elim (Bool-cases (is_evolution_error e)) [
    | inl dropped ↦ rw dropped (
        IsAdmin-trans l s.ledger _ h
          (record_risk_event-IsAdmin now evolution_spawn_skipped s.ledger))
    | inr raised ↦ rw raised h
  ]

  spawn_all-IsClerical : (ps : List (Proposal F)) → Clerical (spawn_all now ps)
  unfolding spawn_all
  spawn_all-IsClerical [] = silent (λ s. refl)
  spawn_all-IsClerical (p ∷ ps) =
      IsClerical->>= {m = λ s. caught now (spawn_challenger now p s)}
        (record {
          at = λ s.
              caught-IsAdmin s.ledger (spawn_challenger now p s).0 (spawn_challenger now p s).1
                ((spawn_challenger-IsClerical p).at s);
        })
        (λ first. IsClerical->>= (spawn_all-IsClerical ps) (λ rest. silent (λ s. refl)))

  pub propose_and_spawn-IsClerical :
      (resample : Resample F) → Clerical (propose_and_spawn now resample)
  unfolding propose_and_spawn
  propose_and_spawn-IsClerical resample =
      IsClerical->>= (propose_challengers-IsClerical resample) (λ ps. spawn_all-IsClerical ps)
