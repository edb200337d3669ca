-- ===== src/Rulesets/Entries.antt =====
-- The side and the price of an entry.
use i_am_not_a_trader_bot.Prelude.{◌≡◌, some}
use i_am_not_a_trader_bot.Float.{Float}
use i_am_not_a_trader_bot.Signals.{Side, up, down, FeatureSnapshot, best_ask}
use i_am_not_a_trader_bot.Rulesets.{Decision}

abbrev pub other : Side → Side
other up = down
other down = up

module _ {F : Type 0} ⦃fl : Float F⦄ where
  -- The side and the price of an entry: the price is that side's best ask.
  pub record Buys (snap : FeatureSnapshot F) (side : Side) (price : F) (d : Decision F)
      : Type 0 where
    pub has_side : d.side ≡ some side
    pub has_price : d.limit_price ≡ some price
    pub quoted : best_ask side snap ≡ some price
