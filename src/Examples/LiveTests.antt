-- ===== src/Examples/LiveTests.antt =====
-- engine/live_client.py on concrete inputs.
use i_am_not_a_trader_bot.Prelude.{
  List, ◌≡◌, refl, true, not, none, [], ◌∷◌, any, str_eq, if◌then◌else◌, keep,
}
use i_am_not_a_trader_bot.Prelude.Result.{ok, err, external_error}
use i_am_not_a_trader_bot.Prelude.Py.{pure, modify}
use i_am_not_a_trader_bot.Float.{divide}
use i_am_not_a_trader_bot.Float.Micros.{ℤ, micros}
use i_am_not_a_trader_bot.Signals.{up}
use i_am_not_a_trader_bot.Ledger.{
  Mode, empty_ledger, record_trade, update_trade_fill, attach_order_id, update_open,
  record_risk_event,
}
use i_am_not_a_trader_bot.Ledger.Validity.{IsValid, empty_ledger-IsValid}
use i_am_not_a_trader_bot.Ledger.History.{Extends}
use i_am_not_a_trader_bot.Risk.{Approved}
use i_am_not_a_trader_bot.LiveClient.{
  Venue, LiveState, RestingOrder, gone, resting, live_execute, recover, match_open_order,
  cancel_and_confirm,
}
use i_am_not_a_trader_bot.LiveClient.Calls.{
  Call, execute, poll, cancel, restart, make_all, make_all-IsValid,
}
use i_am_not_a_trader_bot.LiveClient.Placement.{Enters}
use i_am_not_a_trader_bot.LiveClient.Tracking.{live_execute-IsTracked}
use i_am_not_a_trader_bot.LiveClient.Confirmation.{Confirms, cancel_and_confirm-Confirms}
use i_am_not_a_trader_bot.Examples.{config, snap, now, cents, seconds}

abbrev approval : Approved ℤ
approval = record {
  variant_id = "momentum-1";
  bucket_ts = 1200;
  market_slug = "btc-updown-5m-1200";
  side = up;
  limit_price = cents 70;
  stake_usd = cents 500;
  mode = Mode.live;
}

abbrev Book : Type 0
Book = List (RestingOrder ℤ)

-- A venue that takes every order and loses every answer: `post_order` raises.
abbrev lossy : Venue ℤ Book
lossy = record {
  resolve_token_id = λ slug side. pure "token-up";
  post_order = λ token_id price size orders. (
    err external_error,
    record { order_id = "0x1"; token_id = token_id; price = price } ∷ orders,
  );
  get_order = λ order_id orders. (
    ok (record {
      state =
          if any (λ (o : RestingOrder ℤ). str_eq o.order_id order_id) orders then resting else gone;
      filled_price = none;
      fee_usd = none;
    }),
    orders,
  );
  get_open_orders = λ orders. (ok orders, orders);
  cancel_order =
      λ order_id. modify (keep (λ (o : RestingOrder ℤ). not (str_eq o.order_id order_id)));
}

abbrev idle : LiveState ℤ Book
idle = record { ledger = empty_ledger; orders = []; venue = [] }

recovers : (live_execute lossy now approval snap idle).0 ≡ ok 1
unfolding live_execute divide record_trade recover match_open_order attach_order_id update_open
    record_risk_event
recovers = refl

live_execute-IsTracked_example :
    Enters lossy approval 1 idle (live_execute lossy now approval snap idle).1
live_execute-IsTracked_example = live_execute-IsTracked lossy now approval snap idle 1 recovers

abbrev entered : LiveState ℤ Book
entered = (live_execute lossy now approval snap idle).1

confirms :
    (cancel_and_confirm lossy 1 "0x1" (cents 70) (cents 500) (cents 2) true now entered).0 ≡ ok true
unfolding live_execute divide record_trade recover match_open_order attach_order_id update_open
    record_risk_event cancel_and_confirm update_trade_fill
confirms = refl

cancel_and_confirm-Confirms_example :
    Confirms lossy 1 "0x1"
      (cents 70)
      (cents 500)
      (cents 2)
      true
      true
      entered
      (cancel_and_confirm lossy 1 "0x1" (cents 70) (cents 500) (cents 2) true now entered).1
cancel_and_confirm-Confirms_example =
    cancel_and_confirm-Confirms lossy 1 "0x1" (cents 70) (cents 500) (cents 2) true now entered true
      confirms

-- An entry, a poll, a restart while the order rests, and the exit before the close.
abbrev calls : List (Call ℤ)
calls = execute now approval snap ∷ poll ∷ restart now ∷ cancel (seconds 1490) ∷ []

make_all-IsValid_example :
    IsValid (make_all lossy config calls idle).ledger
    × Extends idle.ledger (make_all lossy config calls idle).ledger
make_all-IsValid_example = make_all-IsValid lossy config calls idle empty_ledger-IsValid
