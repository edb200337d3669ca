-- ===== src/Engine/Gates.antt =====
-- `startup`, which goes on or exits.
use i_am_not_a_trader_bot.Prelude.Result.{Result-cases, Result, err, ok}
use i_am_not_a_trader_bot.Prelude.{
  ap, Bool-cases, arith, Option-cases, ◌≡◌, ◌↔◌, Option, List, ◌∷◌, [], inr, inl, some, none, false,
  refl, keep,
}
use i_am_not_a_trader_bot.Float.{Float}
use i_am_not_a_trader_bot.Config.{
  breaks_freeze, live_variants, is_live, find_variant, Variant, Config, check_frozen,
}
use i_am_not_a_trader_bot.Engine.{starts, live_gate, startup}

module _ {F : Type 0} ⦃fl : Float F⦄ where
  -- The snapshot of an earlier run is absent or loads.
  abbrev pub Loads : Option (Result (Config F)) → Type 0
  Loads none = Unit
  Loads (some (err e)) = ⊥
  Loads (some (ok old)) = Unit

  -- What a `startup` needs to go on with `config`.
  pub record IsSafeStart (loaded : Result (Config F)) (prior : Option (Result (Config F)))
      (config : Config F) : Type 0 where
    pub from_file : loaded ≡ ok config
    pub no_live : live_variants config ≡ []
    pub follows : Loads prior

  -- Where no variant is live, none breaks the freeze.
  check_frozen_idle :
      (vs prior : List (Variant F))
      → keep (λ (v : Variant F). is_live v.status) vs ≡ []
      → check_frozen vs prior ≡ ok tt
  unfolding check_frozen
  check_frozen_idle [] prior idle = refl
  check_frozen_idle (v ∷ vs) prior idle = elim (Bool-cases (is_live v.status)) [
    | inl live ↦ absurd (ground arith)
    | inr resting ↦ elim (Option-cases (find_variant v.id prior)) [
      | inl unknown ↦ ground (arith, unknown, check_frozen_idle vs prior (ground arith))
      | inr (old, known) ↦
          let kept : breaks_freeze v old ≡ false = ground arith in
          ground (arith, known, kept, check_frozen_idle vs prior (ground arith))
    ]
  ]

  live_gate_lem :
      (c config : Config F)
      → live_gate c ≡ starts config
      → (c ≡ config) × (live_variants config ≡ [])
  live_gate_lem c config h = none_live (live_variants c) refl
    where
      none_live :
          (vs : List (Variant F))
          → live_variants c ≡ vs
          → (c ≡ config) × (live_variants config ≡ [])
      none_live [] e = (ground arith, ground arith)
      none_live (v ∷ vs) e = absurd (ground arith)

  went_on :
      (loaded : Result (Config F)) (prior : Option (Result (Config F))) (config : Config F)
      → startup loaded prior ≡ starts config
      → IsSafeStart loaded prior config
  unfolding startup
  went_on (err e) prior config h = absurd (ground arith)
  went_on (ok c) none config h =
      let g = live_gate_lem c config h in
      record { from_file = ap ok g.0; no_live = g.1; follows = tt }
  went_on (ok c) (some (err e)) config h = absurd (ground arith)
  went_on (ok c) (some (ok old)) config h =
      elim (Result-cases (check_frozen c.variants old.variants)) [
        | inr (e, broken) ↦ absurd (ground arith)
        | inl (tt, passed) ↦
            let g = live_gate_lem c config (ground arith) in
            record { from_file = ap ok g.0; no_live = g.1; follows = tt }
      ]

  idle_list :
      (config : Config F)
      → live_variants config ≡ []
      → keep (λ (v : Variant F). is_live v.status) config.variants ≡ []
  unfolding live_variants
  idle_list config h = h

  goes_on :
      (prior : Option (Result (Config F))) (config : Config F)
      → live_variants config ≡ []
      → Loads prior
      → startup (ok config) prior ≡ starts config
  unfolding startup
  goes_on none config idle loads = ground (arith, idle)
  goes_on (some (err e)) config idle loads = absurd loads
  goes_on (some (ok old)) config idle loads =
      ground (arith, idle, check_frozen_idle config.variants old.variants (idle_list config idle))

  -- `startup` goes on with a configuration exactly when it is the one that loaded, no variant of it
  -- is live, and the snapshot of an earlier run is absent or loads. No live variant may start, so
  -- that the check of frozen params refuses no start that this does not.
  pub startup-IsSafeStart :
      (loaded : Result (Config F)) (prior : Option (Result (Config F))) (config : Config F)
      → (startup loaded prior ≡ starts config) ↔ IsSafeStart loaded prior config
  startup-IsSafeStart loaded prior config = (
    went_on loaded prior config,
    λ safe. rw safe.from_file (goes_on prior config safe.no_live safe.follows),
  )
