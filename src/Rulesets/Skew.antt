-- ===== src/Rulesets/Skew.antt =====
-- What holds of the snapshot and the params when `skew_filter` enters.
use i_am_not_a_trader_bot.Prelude.{
  true, false, ◌≡◌, inl, inr, Option, none, some, Option-cases, arith, refl, Bool-cases,
}
use i_am_not_a_trader_bot.Prelude.Result.{ok, Result-cases, returned->>=}
use i_am_not_a_trader_bot.Float.{Float, ◌≼◌, of_ℕ, divide}
use i_am_not_a_trader_bot.Signals.{Side, up, down, FeatureSnapshot, best_ask, skew_ratio}
use i_am_not_a_trader_bot.Config.{Params, item}
use i_am_not_a_trader_bot.Rulesets.{
  Decision, enter, agrees, skew_side, skew_ask, skew_chosen, skew_body, skew_filter,
}
use i_am_not_a_trader_bot.Rulesets.Guarded.{IsGuarded, guarded-HasBody}
use i_am_not_a_trader_bot.Rulesets.Entries.{Buys}

module _ {F : Type 0} ⦃fl : Float F⦄ where
  -- Which side the resting money supports, at least `minimum` to one.
  abbrev pub Leans : F → F → Side → Type 0
  Leans skew minimum up = (minimum ≼ skew) ≡ true
  Leans skew minimum down =
      ((minimum ≼ skew) ≡ false)
      × ((inverse : F) × (divide (of_ℕ 1) minimum ≡ ok inverse) × ((skew ≼ inverse) ≡ true))

  pub record IsSkewEntry (snap : FeatureSnapshot F) (params : Params F) (d : Decision F)
      : Type 0 where
    pub move : F
    pub guards : IsGuarded snap params move
    pub side : Side
    pub price : F
    pub buys : Buys snap side price d
    pub skew : F
    pub has_skew : skew_ratio snap ≡ some skew
    pub minimum : F
    pub has_minimum : item "min_notional_imbalance" params ≡ ok minimum
    pub leans : Leans skew minimum side
    pub agreed : agrees side move ≡ true

  skew_side-Leans :
      (skew minimum : F) (side : Side)
      → skew_side skew minimum ≡ ok (some side)
      → Leans skew minimum side
  unfolding skew_side
  skew_side-Leans skew minimum up h = elim (Result-cases (divide (of_ℕ 1) minimum)) [
    | inr (e, zero_minimum) ↦ ground arith
    | inl (inverse, divided) ↦ ground arith
  ]
  skew_side-Leans skew minimum down h = elim (Result-cases (divide (of_ℕ 1) minimum)) [
    | inr (e, zero_minimum) ↦ absurd (ground arith)
    | inl (inverse, divided) ↦ (ground arith, (inverse, divided, ground arith))
  ]

  skew_body-IsSkewEntry :
      (snap : FeatureSnapshot F) (params : Params F) (move skew : F) (d : Decision F)
      → IsGuarded snap params move
      → skew_ratio snap ≡ some skew
      → skew_body snap params move skew ≡ ok d
      → d.action ≡ enter
      → IsSkewEntry snap params d
  skew_body-IsSkewEntry snap params move skew d g has_skew h entering =
      let (minimum, found, h₁) = returned->>= (item "min_notional_imbalance" params) _ h in
      let (chosen, leaning, h₂) = returned->>= (skew_side skew minimum) _ h₁ in
      sided minimum found chosen leaning h₂
    where
      priced :
          (minimum : F)
          → item "min_notional_imbalance" params ≡ ok minimum
          → (side : Side) → Leans skew minimum side
          → agrees side move ≡ true
          → (ask : Option F) → best_ask side snap ≡ ask
          → skew_ask side ask ≡ d
          → IsSkewEntry snap params d
      priced minimum found side leans agreed none quoted same = absurd (ground arith)
      priced minimum found side leans agreed (some ask) quoted same = record {
        move = move;
        guards = g;
        side = side;
        price = ask;
        buys = record { has_side = ground arith; has_price = ground arith; quoted = quoted };
        skew = skew;
        has_skew = has_skew;
        minimum = minimum;
        has_minimum = found;
        leans = leans;
        agreed = agreed;
      }

      sided :
          (minimum : F)
          → item "min_notional_imbalance" params ≡ ok minimum
          → (chosen : Option Side) → skew_side skew minimum ≡ ok chosen
          → skew_chosen snap move chosen ≡ ok d
          → IsSkewEntry snap params d
      sided minimum found none leaning k = absurd (ground arith)
      sided minimum found (some side) leaning k = elim (Bool-cases (agrees side move)) [
        | inl agreed ↦
            priced minimum found side (skew_side-Leans skew minimum side leaning) agreed _ refl
              (ground arith)
        | inr opposed ↦ absurd (ground arith)
      ]

  -- `skew_filter` enters only past every guard, at the quoted ask of the side that the resting money
  -- supports at least `min_notional_imbalance` to one, and only where the move agrees.
  pub skew_filter-IsSkewEntry :
      (snap : FeatureSnapshot F) (params : Params F) (d : Decision F)
      → skew_filter snap params ≡ ok d
      → d.action ≡ enter
      → IsSkewEntry snap params d
  unfolding skew_filter
  skew_filter-IsSkewEntry snap params d h entering =
      let b = guarded-HasBody snap params _ d h entering in
      elim (Option-cases (skew_ratio snap)) [
        | inl unknown ↦ absurd (ground (arith, b.entered))
        | inr (skew, known) ↦
            skew_body-IsSkewEntry snap params b.move skew d b.guards known
              (ground (arith, b.entered)) entering
      ]
