-- ===== src/Examples/ConfigTests.antt =====
-- The ranges of engine/config.py on concrete configurations.
use i_am_not_a_trader_bot.Prelude.{◌≡◌, refl}
use i_am_not_a_trader_bot.Prelude.Result.{ok, err, config_error}
use i_am_not_a_trader_bot.Float.Micros.{micros}
use i_am_not_a_trader_bot.Config.Validation.{
  check_config, check_risk, check_gate, check_kill, check_variant, check_variants,
}
use i_am_not_a_trader_bot.Config.Bounds.{IsBounded, check_config-IsBounded}
use i_am_not_a_trader_bot.Examples.{cents, seconds, momentum, risk_config, config}

passes : check_config config ≡ ok tt
unfolding check_config check_risk check_gate check_kill check_variant check_variants
passes = refl

over_the_ceiling :
    check_risk (record risk_config { per_trade_max_usd = cents 501 }) ≡ err config_error
unfolding check_risk
over_the_ceiling = refl

funded_shadow : check_variant (record momentum { allocation_usd = seconds 1 }) ≡ err config_error
unfolding check_variant
funded_shadow = refl

check_config-IsBounded_example : IsBounded config
check_config-IsBounded_example = check_config-IsBounded config passes
