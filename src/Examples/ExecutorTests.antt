-- ===== src/Examples/ExecutorTests.antt =====
-- engine/executor.py on concrete inputs.
use i_am_not_a_trader_bot.Prelude.{
  String, false, not, ◌&&◌, ◌≡◌, ◌⊎◌, refl, Option, none, some, [], ◌∷◌, any, str_eq, if◌then◌else◌,
}
use i_am_not_a_trader_bot.Prelude.Result.{ok}
use i_am_not_a_trader_bot.Float.{divide}
use i_am_not_a_trader_bot.Float.Micros.{ℤ, pos, micros}
use i_am_not_a_trader_bot.Signals.{Side, up}
use i_am_not_a_trader_bot.Ledger.{
  Mode, record_trade, update_trade_fill, update_open, Ledger, Trade, empty_ledger, has_entry,
  is_resolution, real, unresolved_timeout,
}
use i_am_not_a_trader_bot.Risk.{Approved}
use i_am_not_a_trader_bot.Executor.{
  taker_fee, shadow_execute, poll, unresolved_buckets, same_key, Market,
}
use i_am_not_a_trader_bot.Executor.Fills.{shadow_execute-Fills, IsFilled, IsUnpriced, filled_row}
use i_am_not_a_trader_bot.Executor.Markets.{any-unresolved_buckets, market_of}
use i_am_not_a_trader_bot.Executor.Polls.{settled}
use i_am_not_a_trader_bot.Executor.Outcomes.{Polls, poll-Polls}
use i_am_not_a_trader_bot.Examples.{snap, now, cents, seconds}

abbrev approval : Approved ℤ
approval = record {
  variant_id = "momentum-1";
  bucket_ts = 1200;
  market_slug = "btc-updown-5m-1200";
  side = up;
  limit_price = cents 70;
  stake_usd = cents 500;
  mode = Mode.shadow;
}

no_entry : has_entry 1200 "momentum-1" Mode.shadow (empty_ledger {F = ℤ}) ≡ false
unfolding has_entry
no_entry = refl

shadow_execute-Fills_example :
    IsFilled now approval snap empty_ledger (shadow_execute now approval snap empty_ledger)
    ⊎ IsUnpriced approval snap empty_ledger (shadow_execute now approval snap empty_ledger)
shadow_execute-Fills_example = shadow_execute-Fills now approval snap empty_ledger refl no_entry

-- The ask and a tick, and 5 / 0.71 shares at 2% of 0.71 * 0.29.
fill_of_approval :
    shadow_execute now approval snap empty_ledger
    ≡ (ok 1, record empty_ledger { trades = filled_row 1 now (cents 71) (pos 28999) approval ∷ [] })
unfolding shadow_execute taker_fee divide record_trade update_trade_fill update_open
fill_of_approval = refl

abbrev traded : Ledger ℤ
traded = record empty_ledger {
  trades =
      filled_row 1 now (cents 71) (cents 3) approval
      ∷ filled_row 2 now (cents 71) (cents 3)
          (record approval { bucket_ts = 900; market_slug = "btc-updown-5m-900" })
      ∷ filled_row 3 now (cents 71) (cents 3) (record approval { variant_id = "fade-1" })
      ∷ [];
}

abbrev answer : String → Option Side
answer slug = if str_eq slug "btc-updown-5m-1200" then some up else none

abbrev late : ℤ
late = seconds 30000

two_markets :
    unresolved_buckets traded ≡ (900, "btc-updown-5m-900") ∷ (1200, "btc-updown-5m-1200") ∷ []
unfolding unresolved_buckets
two_markets = refl

poll-Polls_example :
    Polls answer (seconds 21600) late traded (poll answer (seconds 21600) late traded)
poll-Polls_example = poll-Polls answer (seconds 21600) late traded

-- One answer and one timeout.
both_settled :
    settled answer
      (seconds 21600)
      late
      ((900, "btc-updown-5m-900") ∷ (1200, "btc-updown-5m-1200") ∷ [])
    ≡ (900, "btc-updown-5m-900", unresolved_timeout) ∷ (1200, "btc-updown-5m-1200", real up) ∷ []
both_settled = refl

abbrev market_900 : Market
market_900 = (900, "btc-updown-5m-900")

any-unresolved_buckets_example : any (same_key market_900) (unresolved_buckets traded) ≡ (
    any (λ (t : Trade ℤ). same_key market_900 (market_of t)) traded.trades
    && not (any (is_resolution 900 "btc-updown-5m-900") traded.resolutions))
any-unresolved_buckets_example = any-unresolved_buckets market_900 traded
