-- ===== src/Float/Laws.antt =====
-- What the proofs use of IEEE 754 comparisons. Every law holds of NaN too, of which every
-- comparison is false; `x ≼ x` says that x is not NaN.
use i_am_not_a_trader_bot.Prelude.{◌≡◌, true, false, ℕ, ◌*◌, ◌^◌, ◌≤◌, arith}
use i_am_not_a_trader_bot.Float.Defs.{Float, ◌≺◌, min}

pub record IsOrdered {F : Type 0} (fl : Float F) : Type 0 where
  pub lt_irrefl : (x : F) → fl.lt x x ≡ false
  pub lt_trans : (x y z : F) → fl.lt x y ≡ true → fl.lt y z ≡ true → fl.lt x z ≡ true
  pub le_trans : (x y z : F) → fl.le x y ≡ true → fl.le y z ≡ true → fl.le x z ≡ true
  pub le_of_lt : (x y : F) → fl.lt x y ≡ true → fl.le x y ≡ true
  pub not_lt_of_le : (x y : F) → fl.le x y ≡ true → fl.lt y x ≡ false
  -- two numbers that are not NaN are comparable
  pub le_of_not_lt :
      (x y : F) → fl.le x x ≡ true → fl.le y y ≡ true → fl.lt y x ≡ false → fl.le x y ≡ true
  pub refl_left : (x y : F) → fl.le x y ≡ true → fl.le x x ≡ true
  pub refl_right : (x y : F) → fl.le x y ≡ true → fl.le y y ≡ true
  -- rounding a decimal to the nearest double is monotone
  pub decimal_mono :
      (m k n j : ℕ) → m * 10 ^ j ≤ n * 10 ^ k → fl.le (fl.decimal m k) (fl.decimal n j) ≡ true

module _ {F : Type 0} ⦃fl : Float F⦄ (laws : IsOrdered fl) where
  open laws use {lt_irrefl, lt_trans}

  -- Neither argument is below the minimum, also where one of them is NaN.
  pub min_le : (x y : F) → (x ≺ min x y ≡ false) × (y ≺ min x y ≡ false)
  min_le x y = ground (arith, lt_irrefl x, lt_irrefl y, lt_trans x y x)

  -- What is not above `x` is not above a minimum with `x`.
  pub not_lt-min : (z x y : F) → z ≺ x ≡ false → z ≺ min x y ≡ false
  not_lt-min z x y h = ground (arith, lt_trans z y x)
