-- ===== src/Examples.antt =====
-- Concrete data for the tests and the witnesses: a configuration, a market, a ledger and a venue.
mod RiskTests
mod LedgerTests
mod RulesetTests
mod ExecutorTests
mod ReportTests
mod EngineTests
mod LiveTests
mod FeedTests
mod ConfigTests
mod ControlTests
mod EvolutionTests
use i_am_not_a_trader_bot.Prelude.{ℕ, String, true, false, none, some, [], ◌∷◌, ◌<◌}
use i_am_not_a_trader_bot.Float.Micros.{ℤ, pos, micros}
use i_am_not_a_trader_bot.Float.{Float}
use i_am_not_a_trader_bot.Signals.{FeatureSnapshot, up}
use i_am_not_a_trader_bot.Config.{Config, RiskConfig, GateConfig, KillConfig, Variant, Status}
use i_am_not_a_trader_bot.Rulesets.{Decision, enter_at, entered_momentum}
use i_am_not_a_trader_bot.Ledger.{Calendar, empty_ledger}
use i_am_not_a_trader_bot.Risk.{World, new_risk_state}

-- One day without an end.
instance abbrev pub one_day : Calendar ℤ
one_day = record {
  operator_day = λ t. "2026-07-15";
  day_start = λ d. pos 0;
  day_end = λ d. pos 4000000000000000;
}

-- Dollars, from cents.
abbrev pub cents : ℕ → ℤ
cents n = pos (Prim.Native.Nat.◌*◌ n 10000)

abbrev pub seconds : ℕ → ℤ
seconds n = pos (Prim.Native.Nat.◌*◌ n 1000000)

abbrev pub risk_config : RiskConfig ℤ
risk_config = record {
  per_trade_max_usd = cents 500;
  daily_loss_cap_pct = seconds 5;
  max_live_trades_per_day = 40;
  max_spread = cents 3;
  min_top_depth_usd = cents 2000;
  max_quote_staleness_sec = seconds 8;
  consecutive_failure_halt = 3;
  exit_before_sec = 20;
}

abbrev pub momentum : Variant ℤ
momentum = record {
  id = "momentum-1";
  ruleset_name = "momentum_follow";
  status = Status.shadow;
  allocation_usd = cents 0;
  params =
      ("entry_window_sec_min", seconds 30)
      ∷ ("entry_window_sec_max", seconds 90)
      ∷ ("min_impulse_usd", seconds 20)
      ∷ ("favorite_min_price", cents 65)
      ∷ [];
}

abbrev pub fade : Variant ℤ
fade = record {
  id = "fade-1";
  ruleset_name = "contrarian_fade";
  status = Status.shadow;
  allocation_usd = cents 0;
  params =
      ("entry_window_sec_min", seconds 30)
      ∷ ("entry_window_sec_max", seconds 90)
      ∷ ("min_impulse_usd", seconds 20)
      ∷ ("underdog_max_price", cents 35)
      ∷ [];
}

abbrev pub skewed : Variant ℤ
skewed = record {
  id = "skew-1";
  ruleset_name = "skew_filter";
  status = Status.shadow;
  allocation_usd = cents 0;
  params =
      ("entry_window_sec_min", seconds 30)
      ∷ ("entry_window_sec_max", seconds 90)
      ∷ ("min_impulse_usd", seconds 20)
      ∷ ("min_notional_imbalance", seconds 2)
      ∷ [];
}

-- The momentum variant, funded.
abbrev pub funded : Variant ℤ
funded = record momentum { status = Status.live; allocation_usd = cents 10000 }

abbrev pub config : Config ℤ
config = record {
  version = 1;
  strategy_md_version = "v1";
  bankroll_usd = cents 50000;
  reference_stake_usd = cents 500;
  risk = risk_config;
  gate = record { min_trades = 100; checkpoint_interval = 50; ci_level = cents 95 };
  kill = record { drawdown_pct_of_allocation = seconds 30; consecutive_daily_cap_hits = 3 };
  variants = momentum ∷ fade ∷ skewed ∷ [];
  strategy_md_drift = false;
}

-- The move is up by 40 dollars, up is the favorite at 70 cents, and down the underdog at 31.
abbrev pub snap : FeatureSnapshot ℤ
snap = record {
  bucket_ts = 1200;
  market_slug = "btc-updown-5m-1200";
  seconds_to_close = seconds 60;
  btc_open = some (seconds 60000);
  btc_last = some (seconds 60040);
  up_best_bid = some (cents 68);
  up_best_ask = some (cents 70);
  down_best_bid = some (cents 29);
  down_best_ask = some (cents 31);
  up_bid_depth_usd = seconds 300;
  up_ask_depth_usd = seconds 200;
  down_bid_depth_usd = seconds 100;
  down_ask_depth_usd = seconds 200;
  fee_rate = cents 2;
  fees_enabled = true;
  quote_stale = false;
  spot_stale = false;
}

abbrev pub buy_up : Decision ℤ
buy_up = enter_at up (cents 70) (entered_momentum up)

abbrev pub now : ℤ
now = seconds 1440

abbrev pub start : World ℤ
start = record { ledger = empty_ledger; risk = new_risk_state }
