-- ===== src/Float/Defs.antt =====
-- The operations on the source's `float`, and Python's operators over them.
use i_am_not_a_trader_bot.Prelude.{ℕ, Bool, if◌then◌else◌}
use i_am_not_a_trader_bot.Prelude.Result.{Result, ok, err, zero_division_error}

pub record Float (F : Type 0) : Type 0 where
  pub lt : F → F → Bool
  pub le : F → F → Bool
  pub eq : F → F → Bool
  pub add : F → F → F
  pub sub : F → F → F
  pub mul : F → F → F
  pub div : F → F → F
  pub neg : F → F
  -- the double nearest to m / 10 ^ k: a literal, or an int that meets a float
  pub decimal : ℕ → ℕ → F
  -- `round(x, 9)`
  pub round_9 : F → F
  -- `int(x // n)` for a time x, which is not negative
  pub floor_div : F → ℕ → ℕ
  -- `math.isfinite`
  pub is_finite : F → Bool

module _ {F : Type 0} ⦃fl : Float F⦄ where
  infix 50 ◌≺◌ ◌≼◌ ◌≐◌
  infixl 65 ◌⊕◌ ◌⊖◌
  infixl 70 ◌⊗◌
  abbrev pub ◌≺◌ : F → F → Bool
  x ≺ y = fl.lt x y

  abbrev pub ◌≼◌ : F → F → Bool
  x ≼ y = fl.le x y

  abbrev pub ◌≐◌ : F → F → Bool
  x ≐ y = fl.eq x y

  abbrev pub ◌⊕◌ : F → F → F
  x ⊕ y = fl.add x y

  abbrev pub ◌⊖◌ : F → F → F
  x ⊖ y = fl.sub x y

  abbrev pub ◌⊗◌ : F → F → F
  x ⊗ y = fl.mul x y

  abbrev pub of_ℕ : ℕ → F
  of_ℕ n = fl.decimal n 0

  abbrev pub nought : F
  nought = of_ℕ 0

  -- Python's `x / y` raises at a zero divisor, where IEEE 754 would give an infinity.
  unfoldable pub divide : F → F → Result F
  divide x y = if y ≐ nought then err zero_division_error else ok (fl.div x y)

  -- `abs(x)`
  abbrev pub abs : F → F
  abs x = if x ≺ nought then fl.neg x else x

  -- `min(x, y)` keeps its first argument unless a later one is below it; `max` alike.
  abbrev pub min : F → F → F
  min x y = if y ≺ x then y else x

  abbrev pub max : F → F → F
  max x y = if x ≺ y then y else x
