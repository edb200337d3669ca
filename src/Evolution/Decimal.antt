-- ===== src/Evolution/Decimal.antt =====
-- The digits that are printed are read back.
use Prim.Native.Char.{code}
use i_am_not_a_trader_bot.Prelude.{
  ℕ, zero, suc, ◌+◌, ◌-◌, ◌*◌, ◌/◌, ◌%◌, ◌<◌, true, ◌≡◌, refl, ap, ◌∙◌, some, String, arith, ltb,
  Bool-cases, inl, inr,
}
use i_am_not_a_trader_bot.Evolution.Ids.{is_digit, digit, digits, print, read, number_of}

-- A text of digits only.
abbrev pub AllDigits : String → Type 0
AllDigits String.[] = Unit
AllDigits (String.◌∷◌ c s) = (is_digit (code c) ≡ true) × AllDigits s

digit_lem : (d : ℕ) → d < 10 → (is_digit (code (digit d)) ≡ true) × (code (digit d) - b'0' ≡ d)
digit_lem zero h = (refl, refl)
digit_lem (suc zero) h = (refl, refl)
digit_lem (suc (suc zero)) h = (refl, refl)
digit_lem (suc (suc (suc zero))) h = (refl, refl)
digit_lem (suc (suc (suc (suc zero)))) h = (refl, refl)
digit_lem (suc (suc (suc (suc (suc zero))))) h = (refl, refl)
digit_lem (suc (suc (suc (suc (suc (suc zero)))))) h = (refl, refl)
digit_lem (suc (suc (suc (suc (suc (suc (suc zero))))))) h = (refl, refl)
digit_lem (suc (suc (suc (suc (suc (suc (suc (suc zero)))))))) h = (refl, refl)
digit_lem (suc (suc (suc (suc (suc (suc (suc (suc (suc d))))))))) h = (refl, omega arith)

module _ (d : ℕ) (small : d < 10) (s : String) where
  read-digit : (n : ℕ) → read (String.◌∷◌ (digit d) s) n ≡ read s (n * 10 + d)
  unfolding read
  read-digit n = let (is_one, value) = digit_lem d small in rw (is_one, value)

  number_of-digit : number_of (String.◌∷◌ (digit d) s) ≡ read s d
  unfolding number_of
  number_of-digit = read-digit 0 ∙ ap (read s) (omega arith)

-- The loop reads back as the number, whatever follows.
number_of-digits :
    (fuel n : ℕ) (out : String) → n < fuel → number_of (digits fuel n out) ≡ read out n
unfolding digits
number_of-digits zero n out h = absurd (omega arith)
number_of-digits (suc fuel) n out h = elim (Bool-cases (ltb n 10)) [
  | inl one_digit ↦ rw one_digit (number_of-digit n (ground arith) out)
  | inr more ↦ rw more (
      number_of-digits fuel (n / 10) (String.◌∷◌ (digit (n % 10)) out) (ground arith)
      ∙ read-digit (n % 10) (omega arith) out (n / 10)
      ∙ ap (read out) (omega arith))
]

pub number_of-print : (n : ℕ) → number_of (print n) ≡ some n
unfolding print read
number_of-print n = number_of-digits (suc n) n "" (omega arith)

digits-AllDigits : (fuel n : ℕ) (out : String) → AllDigits out → AllDigits (digits fuel n out)
unfolding digits
digits-AllDigits zero n out h = h
digits-AllDigits (suc fuel) n out h = elim (Bool-cases (ltb n 10)) [
  | inl one_digit ↦ rw one_digit ((digit_lem n (ground arith)).0, h)
  | inr more ↦ rw more (
      digits-AllDigits fuel (n / 10) (String.◌∷◌ (digit (n % 10)) out)
        ((digit_lem (n % 10) (omega arith)).0, h))
]

pub print-AllDigits : (n : ℕ) → AllDigits (print n)
unfolding print
print-AllDigits n = digits-AllDigits (suc n) n "" tt
