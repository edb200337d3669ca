-- ===== src/Evolution/Naming.antt =====
-- The id of a new challenger: it is new, and a review recognises its parent.
use Prim.Native.Char.{Char, code}
use i_am_not_a_trader_bot.Prelude.{
  ℕ, ◌+◌, ◌<◌, false, ◌≡◌, ◌≢◌, refl, sym, ap, ◌∙◌, none, some, List, [], ◌∷◌, String, any, arith,
  str_eq, eq_iff, ◌==◌, Bool-cases, inl, inr,
}
use i_am_not_a_trader_bot.Prelude.Texts.{attach, after}
use i_am_not_a_trader_bot.Prelude.Cuts.{after-attach}
use i_am_not_a_trader_bot.Config.{Variant}
use i_am_not_a_trader_bot.Config.Validation.{ids_of}
use i_am_not_a_trader_bot.Evolution.Ids.{
  print, suffix_number, then_suffix, challenger_number, parent_of, largest_taken,
  next_challenger_id,
}
use i_am_not_a_trader_bot.Evolution.Decimal.{AllDigits, number_of-print, print-AllDigits}

suffix_number-attach : (n : ℕ) → suffix_number (attach "-c" (print n)) ≡ some n
suffix_number-attach n = rw (after-attach "-c" (print n)) (number_of-print n)

-- The name of a challenger.
abbrev name_of : String → ℕ → String
name_of parent n = attach parent (attach "-c" (print n))

challenger_number-name_of :
    (parent : String) (n : ℕ) → challenger_number parent (name_of parent n) ≡ some n
unfolding challenger_number
challenger_number-name_of parent n =
    ap then_suffix (after-attach parent (attach "-c" (print n))) ∙ suffix_number-attach n

-- No suffix starts among digits.
suffix_number-AllDigits : (s : String) → AllDigits s → suffix_number s ≡ none
unfolding after
suffix_number-AllDigits String.[] h = refl
suffix_number-AllDigits (String.◌∷◌ c s) h =
    let not_dash : (b'-' == code c) ≡ false = ground (arith, h.0) in rw not_dash

parent_of-AllDigits : (s : String) → AllDigits s → parent_of s ≡ none
unfolding parent_of
parent_of-AllDigits String.[] h = refl
parent_of-AllDigits (String.◌∷◌ c s) (h, hs) =
    rw (suffix_number-AllDigits s hs, parent_of-AllDigits s hs)

parent_of_suffix : (n : ℕ) → parent_of (attach "-c" (print n)) ≡ none
unfolding parent_of
parent_of_suffix n = rw (
  suffix_number-AllDigits (print n) (print-AllDigits n),
  parent_of-AllDigits (print n) (print-AllDigits n),
)

parent_of-name_of :
    (c : Char) (p : String) (n : ℕ) → parent_of (name_of (String.◌∷◌ c p) n) ≡ some (String.◌∷◌ c p)
unfolding parent_of
parent_of-name_of c String.[] n = rw (suffix_number-attach n, parent_of_suffix n)
parent_of-name_of c (String.◌∷◌ d p) n = rw (parent_of-name_of d p n)

module _ {F : Type 0} where
  -- A name above the largest number is nobody's.
  name_of_fresh :
      (parent : String) (n : ℕ) (vs : List (Variant F))
      → largest_taken parent vs < n
      → any (str_eq (name_of parent n)) (ids_of vs) ≡ false
  name_of_fresh parent n [] h = refl
  name_of_fresh parent n (v ∷ vs) h = elim (Bool-cases (str_eq (name_of parent n) v.id)) [
    | inl taken ↦
        let same : name_of parent n ≡ v.id = (eq_iff (name_of parent n) v.id).0 taken in
        let numbered : challenger_number parent v.id ≡ some n =
          ap (challenger_number parent) (sym same) ∙ challenger_number-name_of parent n in
        absurd (ground (arith, numbered))
    | inr other ↦ rw other (name_of_fresh parent n vs (ground arith))
  ]

  -- The id of the next challenger of a parent is no other variant's id, and is read back: as a
  -- challenger, with that parent, and with the number above the largest one taken.
  pub next_challenger_id-Names :
      (vs : List (Variant F)) (parent : String)
      → parent ≢ ""
      → (parent_of (next_challenger_id vs parent) ≡ some parent)
        × (challenger_number parent (next_challenger_id vs parent)
            ≡ some (largest_taken parent vs + 1))
        × (any (str_eq (next_challenger_id vs parent)) (ids_of vs) ≡ false)
  unfolding next_challenger_id
  next_challenger_id-Names vs String.[] named = absurd (named refl)
  next_challenger_id-Names vs (String.◌∷◌ c p) named =
      let parent = String.◌∷◌ c p in
      (
        parent_of-name_of c p (largest_taken parent vs + 1),
        challenger_number-name_of parent (largest_taken parent vs + 1),
        name_of_fresh parent (largest_taken parent vs + 1) vs (omega arith),
      )
