-- ===== src/Ledger/Unique.antt =====
-- The UNIQUE constraints of the ledger: one trade for each bucket, variant and mode, one resolution
-- for each market; and the ids that identify a row.
use i_am_not_a_trader_bot.Prelude.{
  Bool, false, ◌||◌, ◌≡◌, refl, List, [], ◌∷◌, ◌++◌, map, any, arith,
}

-- No later row meets the test that its row gives.
abbrev pub Unique {ℓ} : {A : Type ℓ} → (A → A → Bool) → List A → Type 0
Unique same [] = Unit
Unique same (x ∷ xs) = (any (same x) xs ≡ false) × Unique same xs

any-append {ℓ} :
    {A : Type ℓ} (p : A → Bool) (xs ys : List A) → any p (xs ++ ys) ≡ (any p xs || any p ys)
any-append p [] ys = refl
any-append p (x ∷ xs) ys = ground (arith, any-append p xs ys)

-- A row that no row of the list is the same as may be added at the end.
pub Unique-append {ℓ} :
    {A : Type ℓ} (same : A → A → Bool)
    → ((x y : A) → same x y ≡ same y x)
    → (xs : List A) (y : A) → Unique same xs
    → any (same y) xs ≡ false
    → Unique same (xs ++ y ∷ [])
Unique-append same sym [] y u h = (refl, tt)
Unique-append same sym (x ∷ xs) y u h = (
  ground (arith, any-append (same x) xs (y ∷ []), sym x y),
  Unique-append same sym xs y u.1 (ground arith),
)

any-map {ℓ} :
    {A : Type ℓ} (p : A → Bool) (f : A → A)
    → ((x : A) → p (f x) ≡ p x)
    → (xs : List A) → any p (map f xs) ≡ any p xs
any-map p f keep [] = refl
any-map p f keep (x ∷ xs) = ground (arith, keep x, any-map p f keep xs)

pub Unique-map {ℓ} :
    {A : Type ℓ} (same : A → A → Bool) (f : A → A)
    → ((x y : A) → same (f x) (f y) ≡ same x y)
    → ((x y : A) → same x (f y) ≡ same x y)
    → (xs : List A) → Unique same xs
    → Unique same (map f xs)
Unique-map same f both right [] u = tt
Unique-map same f both right (x ∷ xs) u = (rows xs u.0, Unique-map same f both right xs u.1)
  where
    rows : (ys : List _) → any (same x) ys ≡ false → any (same (f x)) (map f ys) ≡ false
    rows [] h = refl
    rows (y ∷ ys) h = ground (arith, both x y, rows ys)
