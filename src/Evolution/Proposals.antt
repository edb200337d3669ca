-- ===== src/Evolution/Proposals.antt =====
-- engine/evolution.py: `propose_challengers`.
use i_am_not_a_trader_bot.Prelude.{
  ℕ, ◌-◌, String, Bool, true, false, Option, none, some, List, [], ◌∷◌, ◌++◌, length, ltb,
}
use i_am_not_a_trader_bot.Prelude.Py.{Exec, pure, modify, gets_result, gets, ◌>>=◌, ◌>>◌}
use i_am_not_a_trader_bot.Float.{Float}
use i_am_not_a_trader_bot.Config.{Variant, Params, Status, get}
use i_am_not_a_trader_bot.Config.Validation.{load}
use i_am_not_a_trader_bot.Ledger.{PnlRow, VariantEvent, record_variant_event}
use i_am_not_a_trader_bot.Evolution.State.{Files, on_ledger, put}
use i_am_not_a_trader_bot.Evolution.Splits.{
  Split, Sample, Proposal, Resample, entry_time_split, impulse_size_split, case_of,
}
use i_am_not_a_trader_bot.Evolution.Samples.{resolved_rows, samples_of}

abbrev pub review_interval_trades : ℕ
review_interval_trades = 100

-- `status not in ("shadow", "live")` is passed over.
abbrev pub is_reviewed : Status → Bool
is_reviewed Status.shadow = true
is_reviewed Status.live = true
is_reviewed Status.pending_promotion = false
is_reviewed Status.retired = false

-- `reviewed_n.get(variant_id, 0)`
abbrev pub count_at : Option ℕ → ℕ
count_at none = 0
count_at (some n) = n

module _ {F : Type 0} ⦃fl : Float F⦄ (resample : Resample F) (now : F) where
  -- `_reject`
  abbrev pub reject_case : String → Params F → Exec (Files F) (Unit {0})
  reject_case parent_id params = do
    on_ledger (record_variant_event now parent_id VariantEvent.proposal_rejected params none)
    pure tt

  abbrev pub settle_case :
      String → Params F → Option (Proposal F) → Exec (Files F) (List (Proposal F))
  settle_case parent_id params (some p) = pure (p ∷ [])
  settle_case parent_id params none = do reject_case parent_id params; pure []

  unfoldable pub evaluate_split : String → Params F → Split F → Exec (Files F) (List (Proposal F))
  evaluate_split parent_id params split =
      settle_case parent_id params (case_of resample parent_id split)

  -- A dimension that does not apply to the params is passed over.
  abbrev pub evaluate_dimension :
      String → Params F → Option (Split F) → Exec (Files F) (List (Proposal F))
  evaluate_dimension parent_id params none = pure []
  evaluate_dimension parent_id params (some split) = evaluate_split parent_id params split

  -- The catalog, in its order.
  abbrev pub evaluate_catalog : Variant F → List (Sample F) → Exec (Files F) (List (Proposal F))
  evaluate_catalog v samples = do
    by_time ← evaluate_dimension v.id v.params (entry_time_split v.params samples)
    by_impulse ← evaluate_dimension v.id v.params (impulse_size_split v.params samples)
    pure (by_time ++ by_impulse)

  abbrev pub Reviewed : Type 0
  Reviewed = List (String × ℕ) × List (Proposal F)

  abbrev pub review_rows :
      Variant F → List (String × ℕ) → List (PnlRow F) → Bool → Exec (Files F) Reviewed
  review_rows v reviewed_n rows true = pure (reviewed_n, [])
  review_rows v reviewed_n rows false = do
    samples ← gets (λ (s : Files F). samples_of v.id s.ledger rows)
    proposals ← evaluate_catalog v samples
    pure (put v.id (length rows) reviewed_n, proposals)

  -- At most once per interval of new resolved trades.
  abbrev pub review_variant : Variant F → List (String × ℕ) → Bool → Exec (Files F) Reviewed
  review_variant v reviewed_n false = pure (reviewed_n, [])
  review_variant v reviewed_n true = do
    rows ← gets_result (λ (s : Files F). resolved_rows v.id s.ledger)
    review_rows v reviewed_n rows
        (ltb (length rows - count_at (get v.id reviewed_n)) review_interval_trades)

  unfoldable pub propose_all : List (Variant F) → List (String × ℕ) → Exec (Files F) Reviewed
  propose_all [] reviewed_n = pure (reviewed_n, [])
  propose_all (v ∷ vs) reviewed_n = do
    first ← review_variant v reviewed_n (is_reviewed v.status)
    rest ← propose_all vs first.0
    pure (rest.0, first.1 ++ rest.1)

  -- The state file is written at the end.
  unfoldable pub propose_challengers : Exec (Files F) (List (Proposal F))
  propose_challengers = do
    config ← gets_result (λ (s : Files F). load s.config_file)
    before ← gets (λ (s : Files F). s.reviewed_n)
    after ← propose_all config.variants before
    modify (λ (s : Files F). record s { reviewed_n = after.0 })
    pure after.1
