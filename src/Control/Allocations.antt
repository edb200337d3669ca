-- ===== src/Control/Allocations.antt =====
-- What the allocation requests can change in the configuration file.
use i_am_not_a_trader_bot.Prelude.{
  ◌≡◌, refl, ap, ◌∙◌, subst, String, Option, none, some, List, [], ◌∷◌, arith, inl, inr,
}
use i_am_not_a_trader_bot.Prelude.Result.{Result, ok, err, Result-cases, map_ok}
use i_am_not_a_trader_bot.Float.{Float}
use i_am_not_a_trader_bot.Config.{Config}
use i_am_not_a_trader_bot.Config.Validation.{check_config, load}
use i_am_not_a_trader_bot.Config.Bounds.{check_config-IsBounded}
use i_am_not_a_trader_bot.Control.{
  Content, unreadable, holds, raises, Request, Checked, refused, granted, ControlState, allocate,
  validate_allocation_request, process_request, process_allocations, apply_checked, apply_loaded,
  write_raw_config, kept_or_restored, settle_write,
}
use i_am_not_a_trader_bot.Prelude.Keeps.{Keeps->>=}
use i_am_not_a_trader_bot.Control.Funding.{
  Funded, Funded-refl, Funded-trans, allocate-Funded, validate-IsGranted,
}

module _ {F : Type 0} ⦃fl : Float F⦄ where
  record IsReallocation (c d : Config F) : Type 0 where
    same_rest : d ≡ record c { variants = d.variants }
    funded : Funded c.bankroll_usd c.variants d.variants
    still_loads : check_config c ≡ ok tt → check_config d ≡ ok tt

  -- A file that holds a configuration holds one afterwards, which only reallocates.
  abbrev Reallocates : Option (Config F) → Option (Config F) → Type 0
  Reallocates f g = (c : Config F) → f ≡ some c → (d : Config F) × (g ≡ some d) × IsReallocation c d

  IsReallocation-refl : (c : Config F) → IsReallocation c c
  IsReallocation-refl c = record {
    same_rest = refl;
    funded = Funded-refl c.bankroll_usd c.variants;
    still_loads = λ h. h;
  }

  Reallocates-refl : (f : Option (Config F)) → Reallocates f f
  Reallocates-refl f c e = (c, e, IsReallocation-refl c)

  IsReallocation-trans :
      (c d e : Config F) → IsReallocation c d → IsReallocation d e → IsReallocation c e
  IsReallocation-trans c d e p q =
      let same_bankroll = ap (λ (x : Config F). x.bankroll_usd) p.same_rest in
      record {
        same_rest =
            q.same_rest ∙ ap (λ (x : Config F). record x { variants = e.variants }) p.same_rest;
        funded =
            Funded-trans c.bankroll_usd c.variants d.variants e.variants p.funded
              (subst (λ b. Funded b d.variants e.variants) same_bankroll q.funded);
        still_loads = λ h. q.still_loads (p.still_loads h);
      }

  Reallocates-trans :
      (f g h : Option (Config F)) → Reallocates f g → Reallocates g h → Reallocates f h
  Reallocates-trans f g h p q c e =
      let (d, at_d, first) = p c e in
      let (last, at_last, second) = q d at_d in
      (last, at_last, IsReallocation-trans c d last first second)

  reallocated :
      (f g : Option (Config F)) (c d : Config F)
      → f ≡ some c
      → g ≡ some d
      → IsReallocation c d
      → Reallocates f g
  reallocated f g c d e at_d p c' e' =
      let same : c ≡ c' = ground arith in
      (d, at_d, subst (λ (x : Config F). IsReallocation x d) same p)

  -- Whether the new text loads or the old one comes back.
  settle_write-Reallocates :
      (name id : String) (a now : F) (c raw : Config F) (s : ControlState F)
      → raw ≡ record c { variants = raw.variants }
      → Funded c.bankroll_usd c.variants raw.variants
      → s.file ≡ some c
      → Reallocates s.file (settle_write name id a now (write_raw_config raw s)).1.file
  settle_write-Reallocates name id a now c raw s rest funded there = settles (check_config raw) refl
    where
      settles :
          (r : Result (Unit {0}))
          → check_config raw ≡ r
          → let written =
              kept_or_restored s.file (record s { file = some raw }) (map_ok (λ _. raw) r) in
            Reallocates s.file (settle_write name id a now written).1.file
      settles (ok tt) loads =
          reallocated s.file (some raw) c raw there refl
            (record { same_rest = rest; funded = funded; still_loads = λ _. loads })
      settles (err e) fails = Reallocates-refl s.file

  apply_checked-Reallocates :
      (name : String) (r : Request F) (c : Config F) (now : F) (s : ControlState F)
      → s.file ≡ some c
      → check_config c ≡ ok tt
      → (checked : Checked F) → validate_allocation_request r c ≡ checked
      → Reallocates s.file (apply_checked name c now checked s).1.file
  apply_checked-Reallocates name r c now s there loads (refused reason) e = Reallocates-refl s.file
  apply_checked-Reallocates name r c now s there loads (granted id a) e =
      let g = validate-IsGranted r c id a e in
      settle_write-Reallocates name id a now c (record c { variants = allocate id a c.variants }) s
        refl
        (allocate-Funded c.bankroll_usd id a c.variants g.variant
          (check_config-IsBounded c loads).own_ids g.found g.fundable g.low g.high)
        there

  -- A file that does not load is left as it is.
  apply_loaded-Reallocates :
      (name : String) (r : Request F) (now : F) (s : ControlState F) (f : Option (Config F))
      → s.file ≡ f
      → Reallocates s.file (apply_loaded name r now (load f) s).1.file
  apply_loaded-Reallocates name r now s none e = Reallocates-refl s.file
  apply_loaded-Reallocates name r now s (some c) e = elim (Result-cases (check_config c)) [
    | inl (_, loads) ↦
        rw loads
          (apply_checked-Reallocates name r c now s e loads (validate_allocation_request r c) refl)
    | inr (_, fails) ↦ rw fails (Reallocates-refl s.file)
  ]

  process_request-Reallocates :
      (name : String) (content : Content (Request F)) (now : F) (s : ControlState F)
      → Reallocates s.file (process_request name content now s).1.file
  unfolding process_request
  process_request-Reallocates name (raises e) now s = Reallocates-refl s.file
  process_request-Reallocates name unreadable now s = Reallocates-refl s.file
  process_request-Reallocates name (holds r) now s =
      apply_loaded-Reallocates name r now s s.file refl

  all-Reallocates :
      (files : List (String × Content (Request F))) (now : F) (s : ControlState F)
      → Reallocates s.file (process_allocations files now s).1.file
  unfolding process_allocations
  all-Reallocates [] now s = Reallocates-refl s.file
  all-Reallocates ((name, content) ∷ rest) now s =
      Keeps->>= (λ (s t : ControlState F). Reallocates s.file t.file)
        (process_request name content now) _
        (λ s t u p q. Reallocates-trans s.file t.file u.file p q)
        (process_request-Reallocates name content now) (λ _. all-Reallocates rest now) s

  -- Whatever the request files hold, where the configuration file holds a configuration that passes
  -- the checks of its ranges, it holds one that passes them when the requests are processed. But
  -- for allocations it is the same configuration: each variant is as it was, or it was live or
  -- pending promotion and its new allocation is between zero and the bankroll.
  pub process_allocations-Reallocates :
      (files : List (String × Content (Request F))) (now : F) (s : ControlState F) (c : Config F)
      → s.file ≡ some c
      → check_config c ≡ ok tt
      → (d : Config F) × ((process_allocations files now s).1.file ≡ some d)
        × (check_config d ≡ ok tt)
        × (d ≡ record c { variants = d.variants })
        × Funded c.bankroll_usd c.variants d.variants
  process_allocations-Reallocates files now s c there loads =
      let (d, at_d, p) = all-Reallocates files now s c there in
      (d, at_d, p.still_loads loads, p.same_rest, p.funded)
