-- ===== src/Examples/RiskTests.antt =====
-- engine/risk.py on concrete inputs.
use i_am_not_a_trader_bot.Prelude.{
  ◌≡◌, refl, true, false, none, some, [], ◌∷◌, count_if, ◌+◌, List, Bool,
}
use i_am_not_a_trader_bot.Prelude.Result.{ok}
use i_am_not_a_trader_bot.Float.{divide}
use i_am_not_a_trader_bot.Float.Micros.{ℤ, micros, micros-IsOrdered}
use i_am_not_a_trader_bot.Signals.{up, spread}
use i_am_not_a_trader_bot.Ledger.{
  Mode, has_entry, realized_pnl_rows, open_trades, live_realized_pnl_on_day,
  live_trade_count_on_day, pnl_rows,
}
use i_am_not_a_trader_bot.Risk.{
  Approved, World, approved, approve, check, check_enter, check_entry, halted, stop_active, size,
  market_guards, check_daily_caps, live_stake, remaining_allocation,
}
use i_am_not_a_trader_bot.Risk.Clearance.{IsCleared, check-IsCleared}
use i_am_not_a_trader_bot.Risk.Effects.{IsQuiet, check-IsQuiet}
use i_am_not_a_trader_bot.Risk.Halts.{
  resized, check_in_shadow, look_all, look_all-RecordsOnce, is_stop_event, appearances, stops,
}
use i_am_not_a_trader_bot.Examples.{
  config, momentum, funded, snap, buy_up, now, start, cents, one_day,
}

abbrev shadow_approval : Approved ℤ
shadow_approval = record {
  variant_id = "momentum-1";
  bucket_ts = 1200;
  market_slug = "btc-updown-5m-1200";
  side = up;
  limit_price = cents 70;
  stake_usd = cents 500;
  mode = Mode.shadow;
}

-- Kelly at 0.79 against 0.70 is 0.3: a quarter of it on 100 dollars is 7.50, clamped to 5.
abbrev live_approval : Approved ℤ
live_approval = record shadow_approval { mode = Mode.live; stake_usd = cents 500 }

shadow_check :
    (check config false momentum buy_up snap now none start).0 ≡ ok (approved shadow_approval)
unfolding check check_enter check_entry halted stop_active size market_guards approve has_entry
    spread
shadow_check = refl

live_check :
    (check config false funded buy_up snap now (some (cents 79)) start).0
    ≡ ok (approved live_approval)
unfolding check check_enter check_entry halted stop_active size market_guards approve has_entry
    spread check_daily_caps live_stake remaining_allocation realized_pnl_rows open_trades
    live_realized_pnl_on_day live_trade_count_on_day pnl_rows divide
live_check = refl

check-IsCleared_example :
    IsCleared config false funded buy_up snap now (some (cents 79)) start live_approval
check-IsCleared_example =
    check-IsCleared micros-IsOrdered config false funded buy_up snap now (some (cents 79)) start
      live_approval live_check

-- A look at the STOP file records its event, and the entry is refused.
abbrev failing : World ℤ
failing = record start { risk = record (start.risk) { consecutive_failures = 3 } }

check_in_shadow_example :
    check (resized config (cents 1) (cents 2) (cents 3) 0) false momentum buy_up snap now none start
    ≡ check config false momentum buy_up snap now (some (cents 1)) start
check_in_shadow_example =
    check_in_shadow config false momentum buy_up snap now (some (cents 1)) none start (cents 1)
      (cents 2) (cents 3) 0 refl

check-IsQuiet_example :
    IsQuiet failing (check config false funded buy_up snap now (some (cents 79)) failing).1
check-IsQuiet_example = check-IsQuiet config false funded buy_up snap now (some (cents 79)) failing

-- The file is there at the second and third look, and again at the fifth.
abbrev looks : List (Bool × ℤ)
looks = (false, now) ∷ (true, now) ∷ (true, now) ∷ (false, now) ∷ (true, now) ∷ []

look_all-RecordsOnce_example :
    count_if is_stop_event (look_all looks start).ledger.risk_events
    ≡ count_if is_stop_event start.ledger.risk_events
      + appearances start.risk.stop_event_recorded (stops looks)
look_all-RecordsOnce_example = look_all-RecordsOnce looks start

two_appearances : appearances false (stops looks) ≡ 2
two_appearances = refl
