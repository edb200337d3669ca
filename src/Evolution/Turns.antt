-- ===== src/Evolution/Turns.antt =====
-- One variant's turn in a review: what the handlers change, and by which transitions.
use i_am_not_a_trader_bot.Prelude.{
  ℕ, String, Bool, true, false, ◌≡◌, refl, sym, ◌∙◌, subst, inl, inr, Option, none, some, List, [],
  ◌∷◌, Each, Each-refl, Each-trans, arith, str_eq, eq_iff, Bool-cases,
}
use i_am_not_a_trader_bot.Prelude.Result.{Result, ok, err}
use i_am_not_a_trader_bot.Prelude.Py.{Exec, continue}
use i_am_not_a_trader_bot.Float.{Float}
use i_am_not_a_trader_bot.Config.{Config, Variant, Status, get, find_variant}
use i_am_not_a_trader_bot.Ledger.{Ledger, Mode, VariantEvent, record_variant_event}
use i_am_not_a_trader_bot.Ledger.Admin.{
  IsAdmin, IsAdmin-refl, IsAdmin-trans, record_variant_event-IsAdmin, realized_pnl_rows-IsAdmin,
}
use i_am_not_a_trader_bot.Report.{
  Bootstrap, PairedResult, fundable_at_checkpoint, paired_comparison, bucket_pnl,
}
use i_am_not_a_trader_bot.Evolution.Ids.{parent_of}
use i_am_not_a_trader_bot.Evolution.State.{Files, put, change_variant}
use i_am_not_a_trader_bot.Evolution.Promotions.{
  Desk, Review, flagged, defunded, flag_pending, maybe_flag_pending, retire_parent, retire_found,
  retire_beaten, maybe_retire_champion,
}
use i_am_not_a_trader_bot.Evolution.Machine.{Move, Reaches, Reaches-trans, here, next}

module _ {ℓ} {V : Type ℓ} where
  pub get-put_other :
      (j key : String) (value : V) (d : List (String × V))
      → str_eq key j ≡ false
      → get j (put key value d) ≡ get j d
  get-put_other j key value [] h = rw h
  get-put_other j key value ((k, v) ∷ rest) h =
      ground (arith, eq_iff k key, eq_iff k j, eq_iff key j, get-put_other j key value rest h)

module _ {F : Type 0} where
  pub find_variant-id :
      ⦃fl : Float F⦄
      → (id : String) (vs : List (Variant F)) (v : Variant F) → find_variant id vs ≡ some v
      → v.id ≡ id
  find_variant-id id [] v h = absurd (ground arith)
  find_variant-id id (u ∷ us) v h = elim (Bool-cases (str_eq u.id id)) [
    | inl hit ↦ ground (arith, eq_iff u.id id)
    | inr miss ↦ find_variant-id id us v (ground arith)
  ]

module _ {F : Type 0} ⦃fl : Float F⦄ (l l' : Ledger F) (same : IsAdmin l l')
    (bootstrap : Bootstrap F) where
  fundable_at_checkpoint-IsAdmin :
      (id : String) (config : Config F)
      → fundable_at_checkpoint bootstrap l' id config.gate config
        ≡ fundable_at_checkpoint bootstrap l id config.gate config
  unfolding fundable_at_checkpoint
  fundable_at_checkpoint-IsAdmin id config = rw (realized_pnl_rows-IsAdmin l l' id _ same)

  bucket_pnl-IsAdmin : (id : String) → bucket_pnl id l' ≡ bucket_pnl id l
  unfolding bucket_pnl
  bucket_pnl-IsAdmin id = rw (
    realized_pnl_rows-IsAdmin l l' id Mode.shadow same,
    realized_pnl_rows-IsAdmin l l' id Mode.live same,
  )

  paired_comparison-IsAdmin :
      (champion challenger : String) (level : F)
      → paired_comparison bootstrap l' champion challenger level
        ≡ paired_comparison bootstrap l champion challenger level
  unfolding paired_comparison
  paired_comparison-IsAdmin champion challenger level =
      rw (bucket_pnl-IsAdmin champion, bucket_pnl-IsAdmin challenger)

module _ {F : Type 0} ⦃fl : Float F⦄ (desk : Desk F) (config : Config F) (s : Files F) where
  abbrev pub Reached : List (Variant F) → List (Variant F) → Type 0
  Reached = Each (Reaches desk config s)

  pub record Turn (id : String) (r r' : Review F) : Type 0 where
    pub admin : IsAdmin r.files.ledger r'.files.ledger
    pub same_file : r'.files.config_file ≡ r.files.config_file
    pub moved : Reached r.raw r'.raw
    pub others : (j : String) → str_eq id j ≡ false → get j r'.files.notices ≡ get j r.files.notices

  pub Reached-refl : (vs : List (Variant F)) → Reached vs vs
  Reached-refl = Each-refl (Reaches desk config s) (λ v. here)

  pub Reached-trans : (us vs ws : List (Variant F)) → Reached us vs → Reached vs ws → Reached us ws
  Reached-trans = Each-trans (Reaches desk config s) (Reaches-trans desk config s)

  pub Turn-refl : (id : String) (r : Review F) → Turn id r r
  Turn-refl id r = record {
    admin = IsAdmin-refl r.files.ledger;
    same_file = refl;
    moved = Reached-refl r.raw;
    others = λ j apart. refl;
  }

  pub Turn-trans : (id : String) (r t u : Review F) → Turn id r t → Turn id t u → Turn id r u
  Turn-trans id r t u p q = record {
    admin = IsAdmin-trans r.files.ledger t.files.ledger u.files.ledger p.admin q.admin;
    same_file = q.same_file ∙ p.same_file;
    moved = Reached-trans r.raw t.raw u.raw p.moved q.moved;
    others = λ j apart. q.others j apart ∙ p.others j apart;
  }

  -- A call whose first step makes a turn makes one, if the rest does.
  pub Turn-continue :
      {A B : Type 0} (id : String) (x : Result A) (f : A → Exec (Review F) B) (r : Review F)
      → ((a : A) → x ≡ ok a → Turn id r (f a r).1)
      → Turn id r (continue x f r).1
  Turn-continue id (ok a) f r h = h a refl
  Turn-continue id (err e) f r h = Turn-refl id r

  -- A turn goes on with the next call, from wherever the first one ends.
  pub Turn-then :
      {A B : Type 0} (id : String) (f : A → Exec (Review F) B) (r : Review F) (x : Result A)
      (t : Review F)
      → Turn id r t
      → ((a : A) → Turn id t (f a t).1)
      → Turn id r (continue x f t).1
  Turn-then id f r (ok a) t p h = Turn-trans id r t (f a t).1 p (h a)
  Turn-then id f r (err e) t p h = p

  pub change_variant-Reached :
      (id : String) (f : Variant F → Variant F) (vs : List (Variant F)) (v : Variant F)
      → find_variant id vs ≡ some v
      → Move desk config s v (f v)
      → Reached vs (change_variant id f vs)
  change_variant-Reached id f [] v there m = tt
  change_variant-Reached id f (u ∷ us) v there m = elim (Bool-cases (str_eq u.id id)) [
    | inl hit ↦
        let first : v ≡ u = ground arith in
        rw hit (
          next here (subst (λ (x : Variant F). Move desk config s x (f x)) first m),
          Reached-refl us,
        )
    | inr miss ↦ rw miss (here, change_variant-Reached id f us v (ground arith) m)
  ]

  module _ (v : Variant F) (parent_id : String) (r : Review F)
      (child : parent_of v.id ≡ some parent_id) (there : find_variant v.id r.raw ≡ some v)
      (books : IsAdmin s.ledger r.files.ledger) where
    pub maybe_flag_pending-Turn :
        v.status ≡ Status.shadow → Turn v.id r (maybe_flag_pending desk config v parent_id r).1
    unfolding maybe_flag_pending record_variant_event
    maybe_flag_pending-Turn in_shadow =
        Turn-continue v.id
          (fundable_at_checkpoint desk.bootstrap r.files.ledger v.id config.gate config)
          (λ verdict. flag_pending desk config v parent_id verdict.0) r
          (λ verdict e. flags_if verdict.0 verdict.1 e)
      where
        flags_if :
            (fundable : Bool) (checkpoint : Option ℕ)
            → fundable_at_checkpoint desk.bootstrap r.files.ledger v.id config.gate config
              ≡ ok (fundable, checkpoint)
            → Turn v.id r (flag_pending desk config v parent_id fundable r).1
        flags_if false n e = Turn-refl v.id r
        flags_if true n e = record {
          admin =
              record_variant_event-IsAdmin desk.now v.id VariantEvent.pending_promotion v.params
                (some parent_id) r.files.ledger;
          same_file = refl;
          moved = change_variant-Reached v.id flagged r.raw v there (
              Move.flags parent_id n child in_shadow
                (sym (
                    fundable_at_checkpoint-IsAdmin s.ledger r.files.ledger books desk.bootstrap v.id
                      config)
                  ∙ e)
                refl);
          others = λ j apart. get-put_other j v.id _ r.files.notices apart;
        }

  -- The champion is retired where its challenger has won the paired comparison.
  module _ (id parent_id : String) (r : Review F) (child : parent_of id ≡ some parent_id)
      (books : IsAdmin s.ledger r.files.ledger) where
    abbrev Won : PairedResult F → Type 0
    Won result =
        (paired_comparison desk.bootstrap s.ledger parent_id id config.gate.ci_level ≡ ok result)
        × (result.challenger_wins ≡ true)

    retires :
        (result : PairedResult F) (parent : Variant F)
        → Won result
        → find_variant parent_id r.raw ≡ some parent
        → Turn id r (record {
          files = record (r.files) {
            ledger =
                (record_variant_event desk.now parent.id VariantEvent.retired parent.params none
                  r.files.ledger).1;
          };
          raw = change_variant parent.id defunded r.raw;
        })
    retires result parent won at = record {
      admin =
          record_variant_event-IsAdmin desk.now parent.id VariantEvent.retired parent.params none
            r.files.ledger;
      same_file = refl;
      moved =
          let named = find_variant-id parent_id r.raw parent at in
          change_variant-Reached parent.id defunded r.raw parent
            (subst (λ (x : String). find_variant x r.raw ≡ some parent) (sym named) at)
            (Move.beats id result (rw named child) (rw named won.0) won.1 refl);
      others = λ j apart. refl;
    }

    retire_parent-Turn :
        (result : PairedResult F) (parent : Variant F) (status : Status)
        → Won result
        → find_variant parent_id r.raw ≡ some parent
        → Turn id r (retire_parent desk config parent status r).1
    unfolding record_variant_event
    retire_parent-Turn result parent Status.retired won at = Turn-refl id r
    retire_parent-Turn result parent Status.shadow won at = retires result parent won at
    retire_parent-Turn result parent Status.live won at = retires result parent won at
    retire_parent-Turn result parent Status.pending_promotion won at = retires result parent won at

    retire_found-Turn :
        (result : PairedResult F) (parent : Option (Variant F))
        → Won result
        → find_variant parent_id r.raw ≡ parent
        → Turn id r (retire_found desk config parent r).1
    retire_found-Turn result none won at = Turn-refl id r
    retire_found-Turn result (some parent) won at =
        retire_parent-Turn result parent parent.status won at

    retire_beaten-Turn :
        (result : PairedResult F) (wins : Bool)
        → paired_comparison desk.bootstrap s.ledger parent_id id config.gate.ci_level ≡ ok result
        → result.challenger_wins ≡ wins
        → Turn id r (retire_beaten desk config parent_id wins r).1
    retire_beaten-Turn result false e w = Turn-refl id r
    retire_beaten-Turn result true e w =
        retire_found-Turn result (find_variant parent_id r.raw) (e, w) refl

    pub maybe_retire_champion-Turn : Turn id r (maybe_retire_champion desk config parent_id id r).1
    unfolding maybe_retire_champion
    maybe_retire_champion-Turn =
        Turn-continue id
          (paired_comparison desk.bootstrap r.files.ledger parent_id id config.gate.ci_level)
          (λ result. retire_beaten desk config parent_id result.challenger_wins) r
          (λ result e.
            retire_beaten-Turn result result.challenger_wins
              (sym (
                  paired_comparison-IsAdmin s.ledger r.files.ledger books desk.bootstrap parent_id
                    id config.gate.ci_level)
                ∙ e)
              refl)
