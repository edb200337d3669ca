-- ===== src/Control/Funding.antt =====
-- Which allocations a request may change: what its validation grants, and what is written for it.
use i_am_not_a_trader_bot.Prelude.{
  ◌≡◌, refl, sym, ap, ◌∙◌, subst, String, true, false, Option, none, some, List, [], ◌∷◌, any,
  arith, str_eq, eq_iff, ◌⊎◌, inl, inr, Bool-cases,
}
use i_am_not_a_trader_bot.Float.{Float, ◌≼◌, nought}
use i_am_not_a_trader_bot.Config.{Config, Variant, find_variant}
use i_am_not_a_trader_bot.Config.Validation.{distinct, ids_of}
use i_am_not_a_trader_bot.Control.{
  Request, granted, is_fundable_status, allocate, check_known, validate_allocation_request,
  not_object, asks, number, text, other_json,
}

flipped : (x y : String) → str_eq x y ≡ false → str_eq y x ≡ false
flipped x y h = ground (arith, eq_iff x y, eq_iff y x)

module _ {F : Type 0} ⦃fl : Float F⦄ where
  -- A variant that is another one with an allocation within the bankroll, if that one may have one.
  pub record IsFunded (bankroll : F) (v w : Variant F) : Type 0 where
    pub same : w ≡ record v { allocation_usd = w.allocation_usd }
    pub fundable : is_fundable_status v.status ≡ true
    pub not_negative : (nought ≼ w.allocation_usd) ≡ true
    pub in_bankroll : (w.allocation_usd ≼ bankroll) ≡ true

  -- Variant by variant, nothing has changed or the allocation is a new one within the bankroll.
  abbrev pub Funded : F → List (Variant F) → List (Variant F) → Type 0
  Funded bankroll [] [] = Unit
  Funded bankroll [] (w ∷ ws) = ([] ≡ w ∷ ws)
  Funded bankroll (v ∷ vs) [] = (v ∷ vs ≡ [])
  Funded bankroll (v ∷ vs) (w ∷ ws) = ((w ≡ v) ⊎ IsFunded bankroll v w) × Funded bankroll vs ws

  pub Funded-refl : (b : F) (vs : List (Variant F)) → Funded b vs vs
  Funded-refl b [] = tt
  Funded-refl b (v ∷ vs) = (inl refl, Funded-refl b vs)

  -- The last change of a variant is the one that counts.
  later_change :
      (b : F) (u v w : Variant F)
      → (v ≡ u) ⊎ IsFunded b u v
      → (w ≡ v) ⊎ IsFunded b v w
      → (w ≡ u) ⊎ IsFunded b u w
  later_change b u v w (inl p) (inl q) = inl (q ∙ p)
  later_change b u v w (inl p) (inr q) = inr (subst (λ (x : Variant F). IsFunded b x w) p q)
  later_change b u v w (inr p) (inl q) = inr (subst (λ (x : Variant F). IsFunded b u x) (sym q) p)
  later_change b u v w (inr p) (inr q) = inr (record {
    same = q.same ∙ ap (λ (x : Variant F). record x { allocation_usd = w.allocation_usd }) p.same;
    fundable = p.fundable;
    not_negative = q.not_negative;
    in_bankroll = q.in_bankroll;
  })

  pub Funded-trans :
      (b : F) (us vs ws : List (Variant F)) → Funded b us vs → Funded b vs ws → Funded b us ws
  Funded-trans b [] [] ws p q = q
  Funded-trans b [] (v ∷ vs) ws p q = absurd (ground arith)
  Funded-trans b (u ∷ us) [] ws p q = absurd (ground arith)
  Funded-trans b (u ∷ us) (v ∷ vs) [] p q = absurd (ground arith)
  Funded-trans b (u ∷ us) (v ∷ vs) (w ∷ ws) p q =
      (later_change b u v w p.0 q.0, Funded-trans b us vs ws p.1 q.1)

  -- An id that no variant has changes none.
  allocate_fresh :
      (id : String) (a : F) (vs : List (Variant F))
      → any (str_eq id) (ids_of vs) ≡ false
      → allocate id a vs ≡ vs
  allocate_fresh id a [] h = refl
  allocate_fresh id a (v ∷ vs) h =
      let others : any (str_eq id) (ids_of vs) ≡ false = ground arith in
      let other : str_eq v.id id ≡ false = flipped id v.id (ground arith) in
      rw other (ap (λ (rest : List (Variant F)). v ∷ rest) (allocate_fresh id a vs others))

  pub allocate-Funded :
      (b : F) (id : String) (a : F) (vs : List (Variant F)) (v : Variant F)
      → distinct (ids_of vs) ≡ true
      → find_variant id vs ≡ some v
      → is_fundable_status v.status ≡ true
      → (nought ≼ a) ≡ true
      → (a ≼ b) ≡ true
      → Funded b vs (allocate id a vs)
  allocate-Funded b id a [] v apart found fundable low high = tt
  allocate-Funded b id a (u ∷ us) v apart found fundable low high =
      elim (Bool-cases (str_eq u.id id)) [
        | inl hit ↦
            let named : u.id ≡ id = ground (arith, eq_iff u.id id) in
            let first : u ≡ v = ground arith in
            let others : any (str_eq u.id) (ids_of us) ≡ false = ground arith in
            let kept =
              allocate_fresh id a us
                (subst (λ x. any (str_eq x) (ids_of us) ≡ false) named others) in
            rw hit (
              rw kept (
                inr (record {
                  same = refl;
                  fundable = rw first fundable;
                  not_negative = low;
                  in_bankroll = high;
                }),
                Funded-refl b us,
              ))
        | inr miss ↦
            rw miss (
              inl refl,
              allocate-Funded b id a us v (ground arith) (ground arith) fundable low high,
            )
      ]

  -- What a request that passes the validation names and asks for.
  pub record IsGranted (c : Config F) (id : String) (a : F) : Type 0 where
    pub variant : Variant F
    pub found : find_variant id c.variants ≡ some variant
    pub fundable : is_fundable_status variant.status ≡ true
    pub low : (nought ≼ a) ≡ true
    pub high : (a ≼ c.bankroll_usd) ≡ true

  check_known-IsGranted :
      (c : Config F) (x : String) (y : F) (seen : Option (Variant F)) (id : String) (a : F)
      → find_variant x c.variants ≡ seen
      → check_known c x y seen ≡ granted id a
      → IsGranted c id a
  check_known-IsGranted c x y none id a e h = absurd (ground arith)
  check_known-IsGranted c x y (some v) id a e h =
      let same_id : x ≡ id = ground arith in
      let same_amount : y ≡ a = ground arith in
      record {
        variant = v;
        found = rw (← same_id) e;
        fundable = ground arith;
        low = rw (← same_amount) (ground arith);
        high = rw (← same_amount) (ground arith);
      }

  pub validate-IsGranted :
      (r : Request F) (c : Config F) (id : String) (a : F)
      → validate_allocation_request r c ≡ granted id a
      → IsGranted c id a
  unfolding validate_allocation_request
  validate-IsGranted not_object c id a h = absurd (ground arith)
  validate-IsGranted (asks none _) c id a h = absurd (ground arith)
  validate-IsGranted (asks (some (number _)) _) c id a h = absurd (ground arith)
  validate-IsGranted (asks (some other_json) _) c id a h = absurd (ground arith)
  validate-IsGranted (asks (some (text x)) none) c id a h = absurd (ground arith)
  validate-IsGranted (asks (some (text x)) (some (text _))) c id a h = absurd (ground arith)
  validate-IsGranted (asks (some (text x)) (some other_json)) c id a h = absurd (ground arith)
  validate-IsGranted (asks (some (text x)) (some (number y))) c id a h =
      check_known-IsGranted c x y (find_variant x c.variants) id a refl (ground arith)
