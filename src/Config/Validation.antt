-- ===== src/Config/Validation.antt =====
-- engine/config.py: the ranges that `load_config` checks once the fields have their types. Which
-- fields there are, and their types (`_require`, `_reject_unknown`), are the records of Config.
use i_am_not_a_trader_bot.Prelude.{
  ℕ, String, Bool, true, false, not, ◌&&◌, List, [], ◌∷◌, any, ltb, leb, str_eq, Option, none, some,
}
use i_am_not_a_trader_bot.Prelude.Result.{Result, ok, err, config_error, map_ok, ◌>>◌}
use i_am_not_a_trader_bot.Float.{Float, ◌≺◌, ◌≼◌, ◌≐◌, of_ℕ, nought}
use i_am_not_a_trader_bot.Config.{
  Config, RiskConfig, GateConfig, KillConfig, Variant, Status, hard_per_trade_max_usd,
}

-- `if not test: raise ConfigError`
abbrev pub ensure : Bool → Result (Unit {0})
ensure true = ok tt
ensure false = err config_error

abbrev pub valid_rulesets : List String
valid_rulesets = "momentum_follow" ∷ "contrarian_fade" ∷ "skew_filter" ∷ []

abbrev pub is_shadow : Status → Bool
is_shadow Status.shadow = true
is_shadow Status.live = false
is_shadow Status.pending_promotion = false
is_shadow Status.retired = false

-- `lo < n <= hi`
abbrev pub within : ℕ → ℕ → ℕ → Bool
within lo hi n = ltb lo n && leb n hi

abbrev pub hard_max_live_trades_per_day : ℕ
hard_max_live_trades_per_day = 40

-- `len(ids) == len(set(ids))`
abbrev pub distinct : List String → Bool
distinct [] = true
distinct (id ∷ ids) = not (any (str_eq id) ids) && distinct ids

module _ {F : Type 0} where
  abbrev pub ids_of : List (Variant F) → List String
  ids_of [] = []
  ids_of (v ∷ vs) = v.id ∷ ids_of vs

module _ {F : Type 0} ⦃fl : Float F⦄ where
  abbrev pub hard_daily_loss_cap_pct : F
  hard_daily_loss_cap_pct = of_ℕ 10

  -- `0 < x <= hi`
  abbrev pub is_up_to : F → F → Bool
  is_up_to hi x = nought ≺ x && x ≼ hi

  unfoldable pub check_risk : RiskConfig F → Result (Unit {0})
  check_risk cfg = do
    ensure (is_up_to hard_per_trade_max_usd cfg.per_trade_max_usd)
    ensure (is_up_to hard_daily_loss_cap_pct cfg.daily_loss_cap_pct)
    ensure (within 0 hard_max_live_trades_per_day cfg.max_live_trades_per_day)
    ensure (is_up_to (fl.decimal 5 1) cfg.max_spread)
    ensure (is_up_to (of_ℕ 60) cfg.max_quote_staleness_sec)
    ensure (within 5 120 cfg.exit_before_sec)
    ensure (within 1 10 cfg.consecutive_failure_halt)

  unfoldable pub check_gate : GateConfig F → Result (Unit {0})
  check_gate cfg = do
    ensure (not (ltb cfg.min_trades 100))
    ensure (not (ltb cfg.checkpoint_interval 1))
    ensure (fl.decimal 5 1 ≺ cfg.ci_level && cfg.ci_level ≺ of_ℕ 1)

  unfoldable pub check_kill : KillConfig F → Result (Unit {0})
  check_kill cfg = do
    ensure (is_up_to (of_ℕ 100) cfg.drawdown_pct_of_allocation)
    ensure (not (ltb cfg.consecutive_daily_cap_hits 1))

  unfoldable pub check_variant : Variant F → Result (Unit {0})
  check_variant v = do
    ensure (any (str_eq v.ruleset_name) valid_rulesets)
    ensure (not (v.allocation_usd ≺ nought))
    ensure (not (is_shadow v.status && not (v.allocation_usd ≐ nought)))

  unfoldable pub check_variants : List (Variant F) → Result (Unit {0})
  check_variants [] = ok tt
  check_variants (v ∷ vs) = do check_variant v; check_variants vs

  -- The checks of `load_config`, of which the first that fails raises.
  unfoldable pub check_config : Config F → Result (Unit {0})
  check_config c = do
    check_variants c.variants
    ensure (distinct (ids_of c.variants))
    ensure (not (c.bankroll_usd ≼ nought))
    ensure (is_up_to hard_per_trade_max_usd c.reference_stake_usd)
    check_risk c.risk
    check_gate c.gate
    check_kill c.kill

  -- `load_config` of a file, of which none says that a field or its type is wrong.
  abbrev pub load : Option (Config F) → Result (Config F)
  load none = err config_error
  load (some c) = map_ok (λ _. c) (check_config c)
