-- ===== src/Examples/LedgerTests.antt =====
-- engine/ledger.py on concrete inputs.
use i_am_not_a_trader_bot.Prelude.{◌+◌, count_if, List, ◌≡◌, refl, true, none, some, [], ◌∷◌, inl}
use i_am_not_a_trader_bot.Prelude.Result.{ok, err, ledger_error}
use i_am_not_a_trader_bot.Float.Micros.{ℤ, pos, micros}
use i_am_not_a_trader_bot.Signals.{up, down}
use i_am_not_a_trader_bot.Ledger.{
  Mode, Ledger, Trade, empty_ledger, opened, filled, cancelled, real, record_trade,
  update_trade_fill, attach_order_id, has_entry, record_resolution, PnlRow, voided, pnl_of, pnl_row,
  pnl_rows, realized_pnl_rows, open_trades,
}
use i_am_not_a_trader_bot.Ledger.Validity.{IsValid}
use i_am_not_a_trader_bot.Ledger.Entries.{
  EntersOnce, record_trade-EntersOnce, update_trade_fill_once,
}
use i_am_not_a_trader_bot.Ledger.Runs.{Write, run, perform, run-IsValid, run-Within, Within}
use i_am_not_a_trader_bot.Float.{divide}
use i_am_not_a_trader_bot.Ledger.Accounting.{
  is_row_of, has_id, is_funded, realized_pnl_rows-open_trades,
}
use i_am_not_a_trader_bot.Examples.{now, cents}

-- Two entries, of which the second repeats the bucket; a fill, a second fill, and a resolution.
abbrev writes : List (Write ℤ)
writes =
    Write.trade now 1200 "momentum-1" "m-1200" up Mode.shadow (cents 70) (cents 500) opened none
      (cents 0)
    ∷ Write.trade now 1200 "momentum-1" "m-1200" down Mode.shadow (cents 31) (cents 500) opened none
        (cents 0)
    ∷ Write.fill 1 (some (cents 71)) (cents 3) filled
    ∷ Write.fill 1 none (cents 0) cancelled
    ∷ Write.resolution 1200 "m-1200" (real up) (some now)
    ∷ []

abbrev bought : Trade ℤ
bought = record {
  id = 1;
  ts = now;
  bucket_ts = 1200;
  variant_id = "momentum-1";
  market_slug = "m-1200";
  side = up;
  mode = Mode.shadow;
  intended_price = cents 70;
  filled_price = some (cents 71);
  stake_usd = cents 500;
  fee_usd = cents 3;
  status = filled;
  order_id = none;
}

one_filled_trade : (run writes empty_ledger).trades ≡ bought ∷ []
unfolding run perform record_trade update_trade_fill record_resolution
one_filled_trade = refl

run-IsValid_example : IsValid (run writes empty_ledger)
run-IsValid_example = run-IsValid writes

abbrev after_fill : Ledger ℤ
after_fill = record empty_ledger { trades = bought ∷ [] }

run-Within_example : Within bought (run writes after_fill).trades
run-Within_example = run-Within writes after_fill bought refl (inl refl)

abbrev before_fill : Ledger ℤ
before_fill = record empty_ledger {
  trades = record bought { filled_price = none; fee_usd = cents 0; status = opened } ∷ [];
}

record_trade-EntersOnce_example :
    let after =
      record_trade now 1200 "momentum-1" "m" down Mode.shadow
        (cents 31)
        (cents 500)
        opened
        none
        (cents 0)
        before_fill in
    EntersOnce (has_entry 1200 "momentum-1" Mode.shadow before_fill) before_fill after
    × (has_entry 1200 "momentum-1" Mode.shadow after.1 ≡ true)
record_trade-EntersOnce_example =
    record_trade-EntersOnce now 1200 "momentum-1" "m" down Mode.shadow (cents 31) (cents 500) opened
      none (cents 0) before_fill

fills : (update_trade_fill 1 (some (cents 71)) (cents 3) filled before_fill).0 ≡ ok tt
unfolding update_trade_fill
fills = refl

update_trade_fill_once_example :
    let after = (update_trade_fill 1 (some (cents 71)) (cents 3) filled before_fill).1 in
    (update_trade_fill 1 none (cents 0) cancelled after ≡ (err ledger_error, after))
    × (attach_order_id 1 "0xabc" after ≡ (err ledger_error, after))
update_trade_fill_once_example =
    update_trade_fill_once 1 (some (cents 71)) none (cents 3) (cents 0) filled cancelled "0xabc"
      before_fill fills

-- One filled and resolved trade, one filled and unresolved, one open, and one cancelled.
abbrev four_trades : Ledger ℤ
four_trades = record empty_ledger {
  trades =
      bought
      ∷ record bought { id = 2; bucket_ts = 1500; market_slug = "m-1500" }
      ∷ record bought { id = 3; bucket_ts = 1800; market_slug = "m-1800"; status = opened }
      ∷ record bought { id = 4; bucket_ts = 2100; market_slug = "m-2100"; status = cancelled }
      ∷ [];
  resolutions =
      record {
        id = 1;
        bucket_ts = 1200;
        market_slug = "m-1200";
        outcome = real up;
        resolved_ts = some now;
      }
      ∷ record {
        id = 2;
        bucket_ts = 1500;
        market_slug = "m-1500";
        outcome = voided;
        resolved_ts = some now;
      }
      ∷ [];
}

four_trades-IsValid : IsValid four_trades
four_trades-IsValid = record {
  entries = (refl, (refl, (refl, (refl, tt))));
  ids = (refl, (refl, (refl, (refl, tt))));
  markets = (refl, (refl, tt));
}

-- 5 dollars buy 7.042253 shares at 71 cents.
abbrev won : PnlRow ℤ
won = record { trade = bought; filled_price = cents 71; outcome = up; pnl = pos 2012253 }

one_realized : realized_pnl_rows "momentum-1" Mode.shadow four_trades ≡ ok (won ∷ [])
unfolding realized_pnl_rows pnl_rows pnl_row pnl_of divide
one_realized = refl

realized_pnl_rows-open_trades_example :
    count_if (is_row_of 2) (won ∷ [])
      + count_if (has_id 2) (open_trades (some "momentum-1") (some Mode.shadow) four_trades)
    ≡ count_if (is_funded "momentum-1" Mode.shadow 2) four_trades.trades
realized_pnl_rows-open_trades_example =
    realized_pnl_rows-open_trades "momentum-1" Mode.shadow 2 four_trades (won ∷ [])
      four_trades-IsValid one_realized
