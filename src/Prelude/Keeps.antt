-- ===== src/Prelude/Keeps.antt =====
-- Calls that relate the state before to the state after, whether they return or raise.
use i_am_not_a_trader_bot.Prelude.Result.{Result, ok, err}
use i_am_not_a_trader_bot.Prelude.Py.{Exec, continue, ◌>>=◌}

module _ {S : Type 0} (R : S → S → Type 0) where
  abbrev pub Keeps : {A : Type 0} → Exec S A → Type 0
  Keeps m = (s : S) → R s (m s).1

  pub Keeps-continue :
      {A B : Type 0} (f : A → Exec S B)
      → ((s t u : S) → R s t → R t u → R s u)
      → ((a : A) → Keeps (f a))
      → (r : Result A) (s t : S) → R s t
      → R s (continue r f t).1
  Keeps-continue f trans step (ok a) s t p = trans s t _ p (step a t)
  Keeps-continue f trans step (err e) s t p = p

  pub Keeps->>= :
      {A B : Type 0} (m : Exec S A) (f : A → Exec S B)
      → ((s t u : S) → R s t → R t u → R s u)
      → Keeps m
      → ((a : A) → Keeps (f a))
      → Keeps (m >>= f)
  Keeps->>= m f trans first step s = Keeps-continue f trans step (m s).0 s (m s).1 (first s)
