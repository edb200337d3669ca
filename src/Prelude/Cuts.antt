-- ===== src/Prelude/Cuts.antt =====
-- A first occurrence stays the first one when a text grows at its end.
use Prim.Native.Char.{Char, code}
use Prim.Native.Nat.{◌≤◌}
use Prim.Native.String.{String}
use mathlib.Core.Path.{◌≡◌, refl, sym, ap, ◌∙◌, subst}
use mathlib.Core.Logic.{inl, inr}
use mathlib.Core.Bool.{true}
use mathlib.Core.Option.{Option, none, some}
use native.Mathlib.Omega.{arith}
use i_am_not_a_trader_bot.Prelude.Tests.{◌==◌, Bool-cases, Option-cases}
use i_am_not_a_trader_bot.Prelude.Texts.{attach, after, cut_here, cut, is_cut, contains, size}

pub after-attach : (p s : String) → after p (attach p s) ≡ some s
unfolding after
after-attach String.[] s = refl
after-attach (String.◌∷◌ c p) s = ground (arith, after-attach p s)

abbrev pub grown_rest : String → Option String → Option String
grown_rest t none = none
grown_rest t (some rest) = some (attach rest t)

abbrev pub rest_of : Option (String × String) → String
rest_of none = ""
rest_of (some (_, rest)) = rest

abbrev pub grown_cut : String → Option (String × String) → Option (String × String)
grown_cut t none = none
grown_cut t (some (before, rest)) = some (before, attach rest t)

-- A prefix that fits into a text is one of it however the text goes on.
after_fits : (m s t : String) → size m ≤ size s → after m (attach s t) ≡ grown_rest t (after m s)
unfolding after
after_fits String.[] s t h = refl
after_fits (String.◌∷◌ c m) String.[] t h = absurd (omega arith)
after_fits (String.◌∷◌ c m) (String.◌∷◌ d s) t h = elim (Bool-cases (code c == code d)) [
  | inl same ↦ rw same (after_fits m s t (omega arith))
  | inr other ↦ rw other
]

after-size : (m s rest : String) → after m s ≡ some rest → size m ≤ size s
unfolding after
after-size String.[] s rest h = omega arith
after-size (String.◌∷◌ c m) String.[] rest h = cc
after-size (String.◌∷◌ c m) (String.◌∷◌ d s) rest h = elim (Bool-cases (code c == code d)) [
  | inl same ↦ let shorter = after-size m s rest (ground (arith, h, same)) in omega (arith, shorter)
  | inr other ↦ ground (arith, h, other)
]

cut-size : (m s : String) (found : String × String) → cut m s ≡ some found → size m ≤ size s
unfolding cut
cut-size m String.[] found h = cc
cut-size m (String.◌∷◌ c s) found h = elim (Option-cases (after m (String.◌∷◌ c s))) [
  | inr (rest, here) ↦ after-size m (String.◌∷◌ c s) rest here
  | inl absent ↦ elim (Option-cases (cut m s)) [
    | inr (later, there) ↦ let shorter = cut-size m s later there in omega (arith, shorter)
    | inl nowhere ↦ absurd (ground (arith, h, absent, nowhere))
  ]
]

cut_here_grows :
    (c : Char) (here : Option String) (later longer : Option (String × String)) (t : String)
    (found : String × String)
    → cut_here c here later ≡ some found
    → ((x : String × String) → later ≡ some x → longer ≡ grown_cut t later)
    → cut_here c (grown_rest t here) longer ≡ grown_cut t (some found)
cut_here_grows c (some rest) later longer t found h grows = ap (grown_cut t) h
cut_here_grows c none none longer t found h grows = cc
cut_here_grows c none (some x) longer t found h grows =
    ap (cut_here c none) (grows x refl) ∙ ap (grown_cut t) h

-- What is found in a text is found in a longer one.
pub cut-attach :
    (m s t : String) (found : String × String)
    → cut m s ≡ some found
    → cut m (attach s t) ≡ some (found.0, attach found.1 t)
unfolding cut
cut-attach m String.[] t found h = cc
cut-attach m (String.◌∷◌ c s) t found h =
    let fits = after_fits m (String.◌∷◌ c s) t (cut-size m (String.◌∷◌ c s) found h) in
    rw fits (
      cut_here_grows c (after m (String.◌∷◌ c s)) (cut m s) (cut m (attach s t)) t found h
        (λ x there. cut-attach m s t x there ∙ ap (grown_cut t) (sym there)))

after_itself : (m : String) → after m m ≡ some ""
unfolding after
after_itself String.[] = refl
after_itself (String.◌∷◌ c m) = ground (arith, after_itself m)

is_cut_here :
    (c : Char) (here : Option String) (later : Option (String × String))
    → is_cut later ≡ true
    → is_cut (cut_here c here later) ≡ true
is_cut_here c (some rest) later h = refl
is_cut_here c none (some _) h = refl
is_cut_here c none none h = h

-- The end of a text is found in it.
pub contains_end :
    (c : Char) (m x : String) → contains (String.◌∷◌ c m) (attach x (String.◌∷◌ c m)) ≡ true
unfolding cut
contains_end c m String.[] = rw (after_itself (String.◌∷◌ c m))
contains_end c m (String.◌∷◌ d x) =
    is_cut_here d (after (String.◌∷◌ c m) (String.◌∷◌ d (attach x (String.◌∷◌ c m)))) _
      (contains_end c m x)

-- What is contained in a text is contained in a longer one.
pub contains-attach : (m s t : String) → contains m s ≡ true → contains m (attach s t) ≡ true
contains-attach m s t h = elim (Option-cases (cut m s)) [
  | inl nowhere ↦ absurd (ground (arith, h, nowhere))
  | inr (found, there) ↦ rw (cut-attach m s t found there)
]

-- What follows a mark is a part of the text.
module _ (k : String) where
  contains_later :
      (c : Char) (s : String) → contains k s ≡ true → contains k (String.◌∷◌ c s) ≡ true
  unfolding cut
  contains_later c s h = is_cut_here c (after k (String.◌∷◌ c s)) (cut k s) h

  contains-after :
      (m s rest : String) → after m s ≡ some rest → contains k rest ≡ true → contains k s ≡ true
  unfolding after
  contains-after String.[] s rest h there = subst (λ x. contains k (text_of x) ≡ true) (sym h) there
    where
      text_of : Option String → String
      text_of none = ""
      text_of (some x) = x
  contains-after (String.◌∷◌ c m) String.[] rest h there = cc
  contains-after (String.◌∷◌ c m) (String.◌∷◌ d s) rest h there =
      elim (Bool-cases (code c == code d)) [
        | inl same ↦ contains_later d s (contains-after m s rest (ground (arith, h, same)) there)
        | inr other ↦ absurd (ground (arith, h, other))
      ]

  pub contains-cut :
      (m s : String) (found : String × String)
      → cut m s ≡ some found
      → contains k found.1 ≡ true
      → contains k s ≡ true
  unfolding cut
  contains-cut m String.[] found h there = cc
  contains-cut m (String.◌∷◌ c s) found h there =
      split (after m (String.◌∷◌ c s)) (cut m s) refl (λ x. contains-cut m s x) h
    where
      split :
          (here : Option String) (later : Option (String × String))
          → after m (String.◌∷◌ c s) ≡ here
          → ((x : String × String) → later ≡ some x → contains k x.1 ≡ true → contains k s ≡ true)
          → cut_here c here later ≡ some found
          → contains k (String.◌∷◌ c s) ≡ true
      split (some rest) later at_here again e =
          contains-after m (String.◌∷◌ c s) rest at_here
            (subst (λ x. contains k (rest_of x) ≡ true) (sym e) there)
      split none none at_here again e = cc
      split none (some x) at_here again e =
          contains_later c s
            (again x refl (subst (λ y. contains k (rest_of y) ≡ true) (sym e) there))
