-- ===== src/Rulesets/Fade.antt =====
-- What holds of the snapshot and the params when `contrarian_fade` enters.
use i_am_not_a_trader_bot.Prelude.{
  true, false, ◌≡◌, inl, inr, none, some, Option-cases, arith, if◌then◌else◌,
}
use i_am_not_a_trader_bot.Prelude.Result.{ok, Result-cases}
use i_am_not_a_trader_bot.Float.{Float, ◌≺◌, ◌≼◌, nought}
use i_am_not_a_trader_bot.Signals.{Side, up, down, FeatureSnapshot, best_ask}
use i_am_not_a_trader_bot.Config.{Params, item}
use i_am_not_a_trader_bot.Rulesets.{Decision, enter, agrees, fade_ask, contrarian_fade}
use i_am_not_a_trader_bot.Rulesets.Guarded.{IsGuarded, guarded-HasBody}
use i_am_not_a_trader_bot.Rulesets.Entries.{other, Buys}

module _ {F : Type 0} ⦃fl : Float F⦄ where
  pub record IsFadeEntry (snap : FeatureSnapshot F) (params : Params F) (d : Decision F)
      : Type 0 where
    pub move : F
    pub guards : IsGuarded snap params move
    pub side : Side
    pub price : F
    pub buys : Buys snap side price d
    pub maximum : F
    pub has_maximum : item "underdog_max_price" params ≡ ok maximum
    pub positive : (price ≼ nought) ≡ false
    pub cheap : (maximum ≺ price) ≡ false
    pub against : agrees (other side) move ≡ true

  fade_ask-IsFadeEntry :
      (snap : FeatureSnapshot F) (params : Params F) (move : F) (side : Side) (d : Decision F)
      → IsGuarded snap params move
      → agrees (other side) move ≡ true
      → fade_ask params side (best_ask side snap) ≡ ok d
      → d.action ≡ enter
      → IsFadeEntry snap params d
  fade_ask-IsFadeEntry snap params move side d g against h entering =
      elim (Option-cases (best_ask side snap)) [
        | inl unquoted ↦ absurd (refused unquoted (rw unquoted at h))
        | inr (ask, quoted) ↦ asked ask quoted (rw quoted at h)
      ]
    where
      refused : best_ask side snap ≡ none → fade_ask params side none ≡ ok d → ⊥
      refused unquoted k = ground arith

      asked :
          (ask : F)
          → best_ask side snap ≡ some ask
          → fade_ask params side (some ask) ≡ ok d
          → IsFadeEntry snap params d
      asked ask quoted k = elim (Result-cases (item "underdog_max_price" params)) [
        | inr (e, missing) ↦ absurd (ground arith)
        | inl (maximum, found) ↦ record {
          move = move;
          guards = g;
          side = side;
          price = ask;
          buys = record { has_side = ground arith; has_price = ground arith; quoted = quoted };
          maximum = maximum;
          has_maximum = found;
          positive = ground arith;
          cheap = ground arith;
          against = against;
        }
      ]

  -- `contrarian_fade` enters only past every guard, on the side against the move, at a quoted ask
  -- that is above zero and not above `underdog_max_price`.
  pub contrarian_fade-IsFadeEntry :
      (snap : FeatureSnapshot F) (params : Params F) (d : Decision F)
      → contrarian_fade snap params ≡ ok d
      → d.action ≡ enter
      → IsFadeEntry snap params d
  unfolding contrarian_fade
  contrarian_fade-IsFadeEntry snap params d h entering =
      let b = guarded-HasBody snap params _ d h entering in
      let side : Side = if nought ≺ b.move then down else up in
      fade_ask-IsFadeEntry snap params b.move side d b.guards (opposed b.move) b.entered entering
    where
      opposed : (move : F) → agrees (other (if nought ≺ move then down else up)) move ≡ true
      opposed move = ground arith
