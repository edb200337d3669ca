-- ===== src/Prelude/Lists.antt =====
-- Lists over the native numbers, and predicates on them by recursion.
use Prim.Native.Nat.{ℕ, zero, suc, ◌+◌}
use mathlib.Core.Path.{◌≡◌}
use mathlib.Core.Bool.{Bool, true, false, ◌||◌}
use mathlib.Core.List.{List, [], ◌∷◌, ◌++◌}
use i_am_not_a_trader_bot.Prelude.Tests.{if◌then◌else◌}
use native.Mathlib.Omega.{arith}

abbrev pub length {ℓ} : {A : Type ℓ} → List A → ℕ
length [] = 0
length (x ∷ xs) = suc (length xs)

pub length-append {ℓ} : {A : Type ℓ} (xs ys : List A) → length (xs ++ ys) ≡ length xs + length ys
length-append [] ys = omega arith
length-append (x ∷ xs) ys = omega (arith, length-append xs ys)

abbrev pub any {ℓ} : {A : Type ℓ} → (A → Bool) → List A → Bool
any p [] = false
any p (x ∷ xs) = p x || any p xs

abbrev pub keep_if {ℓ} : {A : Type ℓ} → Bool → A → List A → List A
keep_if true x rest = x ∷ rest
keep_if false x rest = rest

-- A list comprehension with an `if`.
abbrev pub keep {ℓ} : {A : Type ℓ} → (A → Bool) → List A → List A
keep p [] = []
keep p (x ∷ xs) = keep_if (p x) x (keep p xs)

abbrev pub All {ℓ κ} : {A : Type ℓ} → (A → Type κ) → List A → Type κ
All P [] = Unit
All P (x ∷ xs) = P x × All P xs

pub All-append {ℓ κ} :
    {A : Type ℓ} (P : A → Type κ) (xs ys : List A) → All P xs → All P ys → All P (xs ++ ys)
All-append P [] ys hx hy = hy
All-append P (x ∷ xs) ys hx hy = (hx.0, All-append P xs ys hx.1 hy)

-- As many elements, related one by one.
abbrev pub Each {ℓ} : {A : Type ℓ} → (A → A → Type 0) → List A → List A → Type 0
Each R [] [] = Unit
Each R [] (y ∷ ys) = ⊥
Each R (x ∷ xs) [] = ⊥
Each R (x ∷ xs) (y ∷ ys) = R x y × Each R xs ys

module _ {ℓ} {A : Type ℓ} (R : A → A → Type 0) where
  pub Each-refl : ((x : A) → R x x) → (xs : List A) → Each R xs xs
  Each-refl h [] = tt
  Each-refl h (x ∷ xs) = (h x, Each-refl h xs)

  pub Each-trans :
      ((x y z : A) → R x y → R y z → R x z)
      → (xs ys zs : List A) → Each R xs ys
      → Each R ys zs
      → Each R xs zs
  Each-trans h [] [] zs p q = q
  Each-trans h [] (y ∷ ys) zs p q = absurd p
  Each-trans h (x ∷ xs) [] zs p q = absurd p
  Each-trans h (x ∷ xs) (y ∷ ys) [] p q = absurd q
  Each-trans h (x ∷ xs) (y ∷ ys) (z ∷ zs) (p, ps) (q, qs) =
      (h x y z p q, Each-trans h xs ys zs ps qs)

abbrev pub count_if {ℓ} : {A : Type ℓ} → (A → Bool) → List A → ℕ
count_if p [] = 0
count_if p (x ∷ xs) = if p x then suc (count_if p xs) else count_if p xs

pub count_if-append {ℓ} :
    {A : Type ℓ} (p : A → Bool) (xs ys : List A)
    → count_if p (xs ++ ys) ≡ count_if p xs + count_if p ys
count_if-append p [] ys = omega arith
count_if-append p (x ∷ xs) ys = ground (arith, count_if-append p xs ys)

abbrev pub take {ℓ} : {A : Type ℓ} → ℕ → List A → List A
take zero xs = []
take (suc n) [] = []
take (suc n) (x ∷ xs) = x ∷ take n xs
