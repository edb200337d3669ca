-- ===== src/Examples/RulesetTests.antt =====
-- engine/rulesets.py on concrete inputs.
use i_am_not_a_trader_bot.Prelude.{◌≡◌, refl}
use i_am_not_a_trader_bot.Prelude.Result.{ok}
use i_am_not_a_trader_bot.Float.{divide}
use i_am_not_a_trader_bot.Float.Micros.{ℤ, micros}
use i_am_not_a_trader_bot.Signals.{up, down, btc_move_usd, impulse_available, skew_ratio}
use i_am_not_a_trader_bot.Rulesets.{
  Decision, enter_at, entered_fade, entered_skew, common_guards, directional_move, follow,
  momentum_follow, contrarian_fade, skew_filter, skew_side,
}
use i_am_not_a_trader_bot.Rulesets.Momentum.{IsMomentumEntry, momentum_follow-IsMomentumEntry}
use i_am_not_a_trader_bot.Rulesets.Fade.{IsFadeEntry, contrarian_fade-IsFadeEntry}
use i_am_not_a_trader_bot.Rulesets.Skew.{IsSkewEntry, skew_filter-IsSkewEntry}
use i_am_not_a_trader_bot.Examples.{momentum, fade, skewed, snap, buy_up, cents}

momentum_buys : momentum_follow snap momentum.params ≡ ok buy_up
unfolding momentum_follow common_guards directional_move follow btc_move_usd impulse_available
momentum_buys = refl

momentum_follow-IsMomentumEntry_example : IsMomentumEntry snap momentum.params buy_up
momentum_follow-IsMomentumEntry_example =
    momentum_follow-IsMomentumEntry snap momentum.params buy_up momentum_buys refl

abbrev buy_down : Decision ℤ
buy_down = enter_at down (cents 31) (entered_fade down)

fade_buys : contrarian_fade snap fade.params ≡ ok buy_down
unfolding contrarian_fade common_guards directional_move btc_move_usd impulse_available
fade_buys = refl

contrarian_fade-IsFadeEntry_example : IsFadeEntry snap fade.params buy_down
contrarian_fade-IsFadeEntry_example =
    contrarian_fade-IsFadeEntry snap fade.params buy_down fade_buys refl

abbrev buy_skewed : Decision ℤ
buy_skewed = enter_at up (cents 70) (entered_skew up)

skew_buys : skew_filter snap skewed.params ≡ ok buy_skewed
unfolding skew_filter common_guards directional_move btc_move_usd impulse_available skew_ratio
    skew_side divide
skew_buys = refl

skew_filter-IsSkewEntry_example : IsSkewEntry snap skewed.params buy_skewed
skew_filter-IsSkewEntry_example =
    skew_filter-IsSkewEntry snap skewed.params buy_skewed skew_buys refl
