-- ===== src/Report/Wilson.antt =====
-- analytics/report.py: the quantile of the normal distribution and the Wilson interval. `math.sqrt`
-- and `math.log`, which may raise, are parameters.
use i_am_not_a_trader_bot.Prelude.{ℕ, ◌*◌, ◌&&◌, List, [], ◌∷◌, foldl, ◌==◌, if◌then◌else◌}
use i_am_not_a_trader_bot.Prelude.Result.{Result, ok, err, value_error, ◌>>=◌}
use i_am_not_a_trader_bot.Float.{Float, divide, min, max, of_ℕ, nought, ◌≺◌, ◌⊕◌, ◌⊖◌, ◌⊗◌}

-- What the module takes from `math`.
pub record Maths (F : Type 0) : Type 0 where
  pub sqrt : F → Result F
  pub log : F → Result F

module _ {F : Type 0} ⦃fl : Float F⦄ where
  abbrev pub neg_decimal : ℕ → ℕ → F
  neg_decimal m k = fl.neg (fl.decimal m k)

  -- `a[0]`, and the others
  abbrev pub first_a : F
  first_a = neg_decimal 3969683028665376 14

  abbrev pub others_a : List F
  others_a =
      (fl.decimal 2209460984245205 13)
      ∷ (neg_decimal 2759285104469687 13)
      ∷ (fl.decimal 1383577518672690 13)
      ∷ (neg_decimal 3066479806614716 14)
      ∷ (fl.decimal 2506628277459239 15)
      ∷ []

  -- `b[0]`, and the others
  abbrev pub first_b : F
  first_b = neg_decimal 5447609879822406 14

  abbrev pub others_b : List F
  others_b =
      (fl.decimal 1615858368580409 13)
      ∷ (neg_decimal 1556989798598866 13)
      ∷ (fl.decimal 6680131188771972 14)
      ∷ (neg_decimal 1328068155288572 14)
      ∷ []

  -- `c[0]`, and the others
  abbrev pub first_c : F
  first_c = neg_decimal 7784894002430293 18

  abbrev pub others_c : List F
  others_c =
      (neg_decimal 3223964580411365 16)
      ∷ (neg_decimal 2400758277161838 15)
      ∷ (neg_decimal 2549732539343734 15)
      ∷ (fl.decimal 4374664141464968 15)
      ∷ (fl.decimal 2938163982698783 15)
      ∷ []

  -- `d[0]`, and the others
  abbrev pub first_d : F
  first_d = fl.decimal 7784695709041462 18

  abbrev pub others_d : List F
  others_d =
      (fl.decimal 3224671290700398 16)
      ∷ (fl.decimal 2445134137142996 15)
      ∷ (fl.decimal 3754408661907416 15)
      ∷ []

  -- `((x0 * t + x1) * t + x2) * t + ...`
  abbrev pub horner : F → List F → F → F
  horner x0 xs t = foldl (λ (sum x : F). sum ⊗ t ⊕ x) x0 xs

  -- The same, with `+ 1` at the end.
  abbrev pub horner_one : F → List F → F → F
  horner_one x0 xs t = horner x0 xs t ⊗ t ⊕ of_ℕ 1

  abbrev pub p_low : F
  p_low = fl.decimal 2425 5

  abbrev pub p_high : F
  p_high = of_ℕ 1 ⊖ fl.decimal 2425 5

  abbrev pub middle : F → Result F
  middle p =
      let q = p ⊖ fl.decimal 5 1 in
      let r = q ⊗ q in divide (horner first_a others_a r ⊗ q) (horner_one first_b others_b r)

  module _ (maths : Maths F) where
    -- The quotient in a tail of probability p.
    abbrev pub tail : F → Result F
    tail p = do
      l ← maths.log p
      q ← maths.sqrt (fl.neg (of_ℕ 2) ⊗ l)
      divide (horner first_c others_c q) (horner_one first_d others_d q)

    unfoldable pub normal_quantile : F → Result F
    normal_quantile p =
        if nought ≺ p && p ≺ of_ℕ 1
        then if p ≺ p_low
          then tail p
          else if p_high ≺ p
          then (do q ← tail (of_ℕ 1 ⊖ p); ok (fl.neg q))
          else middle p
        else err value_error

    -- From the quantile z; `n` is not 0.
    abbrev pub wilson_from : ℕ → ℕ → F → Result (F × F)
    wilson_from wins n z = do
      let p = fl.div (of_ℕ wins) (of_ℕ n)
      let denom = of_ℕ 1 ⊕ fl.div (z ⊗ z) (of_ℕ n)
      center ← divide (p ⊕ fl.div (z ⊗ z) (of_ℕ (2 * n))) denom
      root ← maths.sqrt (fl.div (p ⊗ (of_ℕ 1 ⊖ p)) (of_ℕ n) ⊕ fl.div (z ⊗ z) (of_ℕ (4 * n * n)))
      half ← divide (z ⊗ root) denom
      ok (max nought (center ⊖ half), min (of_ℕ 1) (center ⊕ half))

    unfoldable pub wilson_interval : ℕ → ℕ → F → Result (F × F)
    wilson_interval wins n ci_level = if n == 0 then err value_error else (do
      z ← normal_quantile (fl.decimal 5 1 ⊕ fl.div ci_level (of_ℕ 2))
      wilson_from wins n z)
