-- ===== src/Prelude/Result.antt =====
-- Pure code that may raise a Python exception.
use mathlib.Core.Path.{◌≡◌, refl}
use mathlib.Core.Logic.{◌⊎◌, inl, inr}

-- The exceptions that the modelled code raises or lets through.
pub data Error : Type 0 where
  assertion_error key_error type_error value_error zero_division_error attribute_error : Error
  integrity_error ledger_error config_error submission_error evolution_error : Error
  index_error control_error : Error
  -- whatever an injected collaborator raises
  external_error : Error

-- The value that is returned, or the exception that is raised.
pub data Result {ℓ} (Value : Type ℓ) : Type ℓ where
  ok : Value → Result Value
  err : Error → Result Value

-- A result is one or the other.
pub Result-cases {ℓ} :
    {A : Type ℓ} (r : Result A) → ((a : A) × (r ≡ ok a)) ⊎ ((e : Error) × (r ≡ err e))
Result-cases (ok a) = inl (a, refl)
Result-cases (err e) = inr (e, refl)

module _ {ℓ κ} {A : Type ℓ} {B : Type κ} where
  abbrev pub map_ok : (A → B) → Result A → Result B
  map_ok f (err e) = err e
  map_ok f (ok a) = ok (f a)

  -- The next step is taken where the first has returned.
  infixl 5 ◌>>=◌ ◌>>◌
  abbrev pub ◌>>=◌ : Result A → (A → Result B) → Result B
  err raised >>= next = err raised
  ok value >>= next = next value

  abbrev pub ◌>>◌ : Result A → Result B → Result B
  first >> second = first >>= λ _. second

  -- A call that returned is one whose first step returned.
  pub returned->>= :
      (first : Result A) (next : A → Result B) {b : B}
      → (first >>= next) ≡ ok b
      → (a : A) × (first ≡ ok a) × (next a ≡ ok b)
  returned->>= (err raised) next h = cc
  returned->>= (ok value) next h = (value, refl, h)

  pub returned-map_ok :
      (f : A → B) (r : Result A) {b : B} → map_ok f r ≡ ok b → (a : A) × (r ≡ ok a) × (f a ≡ b)
  returned-map_ok f (err raised) h = cc
  returned-map_ok f (ok value) h = (value, refl, cc)
