-- ===== src/Float/Micros.antt =====
-- A concrete instance, for tests and witnesses: integers that count millionths.
use native.Mathlib.Nat.{
  mul-le-mul_right, div-mul-le_self, mul_right_comm, le_trans, le-div_iff_mul-le,
  le_of_mul-le-mul_right, one-le-pow,
}
use i_am_not_a_trader_bot.Prelude.{
  ℕ, suc, ◌+◌, ◌-◌, ◌*◌, ◌/◌, ◌^◌, ◌≤◌, ◌<◌, ◌≡◌, Bool, true, arith, ltb, leb, ◌==◌, if◌then◌else◌,
}
use i_am_not_a_trader_bot.Float.Defs.{Float}
use i_am_not_a_trader_bot.Float.Laws.{IsOrdered}

-- `negsuc n` is -(n + 1) millionths.
pub data ℤ : Type 0 where
  pos : ℕ → ℤ
  negsuc : ℕ → ℤ

abbrev pos_part : ℤ → ℕ
pos_part (pos n) = n
pos_part (negsuc n) = 0

abbrev neg_part : ℤ → ℕ
neg_part (pos n) = 0
neg_part (negsuc n) = suc n

abbrev sub_ℕ : ℕ → ℕ → ℤ
sub_ℕ a b = if leb b a then pos (a - b) else negsuc (b - a - 1)

-- A product or quotient, from the signs and the two magnitudes.
abbrev signed : ℤ → ℤ → (ℕ → ℕ → ℕ) → ℤ
signed (pos a) (pos b) f = pos (f a b)
signed (pos a) (negsuc b) f = sub_ℕ 0 (f a (suc b))
signed (negsuc a) (pos b) f = sub_ℕ 0 (f (suc a) b)
signed (negsuc a) (negsuc b) f = pos (f (suc a) (suc b))

abbrev ltb_ℤ : ℤ → ℤ → Bool
ltb_ℤ a b = ltb (pos_part a + neg_part b) (pos_part b + neg_part a)

abbrev leb_ℤ : ℤ → ℤ → Bool
leb_ℤ a b = leb (pos_part a + neg_part b) (pos_part b + neg_part a)

instance abbrev pub micros : Float ℤ
micros = record {
  lt = ltb_ℤ;
  le = leb_ℤ;
  eq = λ a b. pos_part a + neg_part b == pos_part b + neg_part a;
  add = λ a b. sub_ℕ (pos_part a + pos_part b) (neg_part a + neg_part b);
  sub = λ a b. sub_ℕ (pos_part a + neg_part b) (neg_part a + pos_part b);
  mul = λ a b. signed a b (λ x y. x * y / 1_000_000);
  div = λ a b. signed a b (λ x y. x * 1_000_000 / y);
  neg = λ a. sub_ℕ (neg_part a) (pos_part a);
  decimal = λ m k. pos (m * 1_000_000 / 10 ^ k);
  round_9 = λ a. a;
  floor_div = λ a n. pos_part a / (n * 1_000_000);
  is_finite = λ a. true;
}

-- A quotient grows with the fraction.
div_mono : (a b p q : ℕ) → 0 < p → 0 < q → a * q ≤ b * p → a / p ≤ b / q
div_mono a b p q hp hq h =
    let x = a / p in
    let up : x * p * q ≤ a * q = mul-le-mul_right q (div-mul-le_self a p) in
    let turned : x * q * p ≤ b * p = rw (mul_right_comm x q p) (le_trans up h) in
    (le-div_iff_mul-le hq).1 (le_of_mul-le-mul_right turned hp)

decimal_mono_lem :
    (m k n j : ℕ)
    → m * 10 ^ j ≤ n * 10 ^ k
    → leb_ℤ (pos (m * 1_000_000 / 10 ^ k)) (pos (n * 1_000_000 / 10 ^ j)) ≡ true
decimal_mono_lem m k n j h = ground (
  arith,
  div_mono (m * 1_000_000) (n * 1_000_000) (10 ^ k) (10 ^ j) (one-le-pow k 10 (omega arith))
      (one-le-pow j 10 (omega arith)) (scaled (10 ^ j) (10 ^ k) h),
)
  where
    scaled : (u v : ℕ) → m * u ≤ n * v → m * 1_000_000 * u ≤ n * 1_000_000 * v
    scaled u v g = omega arith

pub micros-IsOrdered : IsOrdered micros
micros-IsOrdered = record {
  lt_irrefl = λ x. ground arith;
  lt_trans = λ x y z h k. ground arith;
  le_trans = λ x y z h k. ground arith;
  le_of_lt = λ x y h. ground arith;
  not_lt_of_le = λ x y h. ground arith;
  le_of_not_lt = λ x y a b h. ground arith;
  refl_left = λ x y h. ground arith;
  refl_right = λ x y h. ground arith;
  decimal_mono = decimal_mono_lem;
}
