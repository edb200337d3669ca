-- ===== src/Prelude/Py.antt =====
-- A Python call that changes objects and may raise. What was written before the exception stays
-- written, so the state comes back beside an error too.
use mathlib.Core.Path.{◌≡◌, refl}
use i_am_not_a_trader_bot.Prelude.Result.{Error, Result, ok, err}

abbrev pub Exec : Type 0 → Type 0 → Type 0
Exec S A = S → Result A × S

module _ {S A : Type 0} where
  abbrev pub pure : A → Exec S A
  pure a s = (ok a, s)

  abbrev pub raise : Error → Exec S A
  raise e s = (err e, s)

  abbrev pub lift : Result A → Exec S A
  lift r s = (r, s)

  abbrev pub gets : (S → A) → Exec S A
  gets f s = (ok (f s), s)

  abbrev pub gets_result : (S → Result A) → Exec S A
  gets_result f s = (f s, s)

abbrev pub modify : {S : Type 0} → (S → S) → Exec S (Unit {0})
modify f s = (ok tt, f s)

abbrev pub continue : {S A B : Type 0} → Result A → (A → Exec S B) → Exec S B
continue (ok a) f s = f a s
continue (err e) f s = (err e, s)

infixl 5 ◌>>=◌ ◌>>◌
abbrev pub ◌>>=◌ : {S A B : Type 0} → Exec S A → (A → Exec S B) → Exec S B
◌>>=◌ m f s = let (r, s') = m s in continue r f s'

abbrev pub ◌>>◌ : {S A B : Type 0} → Exec S A → Exec S B → Exec S B
m >> k = m >>= λ _. k

-- A call that returned is one whose first step returned.
pub returned-continue :
    {S A B : Type 0} (x : Result A) (f : A → Exec S B) (s : S) {b : B}
    → (continue x f s).0 ≡ ok b
    → (a : A) × (x ≡ ok a) × (continue x f s ≡ f a s)
returned-continue (ok a) f s h = (a, refl, refl)
returned-continue (err e) f s h = cc
