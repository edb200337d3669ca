-- ===== src/Examples/ReportTests.antt =====
-- analytics/report.py on concrete inputs.
use i_am_not_a_trader_bot.Prelude.{ℕ, List, ◌≡◌, refl, none, some, [], ◌∷◌, length, arith}
use i_am_not_a_trader_bot.Prelude.{map, false}
use i_am_not_a_trader_bot.Float.{divide}
use i_am_not_a_trader_bot.Float.Micros.{ℤ, pos, micros}
use i_am_not_a_trader_bot.Signals.{up}
use i_am_not_a_trader_bot.Config.{GateConfig, Variant}
use i_am_not_a_trader_bot.Ledger.{
  Mode, PnlRow, filled, empty_ledger, realized_pnl_rows, trades_for_variant, pnl_rows,
}
use i_am_not_a_trader_bot.Prelude.Result.{ok}
use i_am_not_a_trader_bot.Report.Wilson.{Maths, wilson_interval, normal_quantile}
use i_am_not_a_trader_bot.Report.{
  verdict_on, max_drawdown, fundable_at_checkpoint, Bootstrap, checkpoint_for, chronological,
  fundable_on, pnl_at, overlap_diffs,
}
use i_am_not_a_trader_bot.Report.Stats.{
  Numeric, build_variant_stats, compute_variant_stats, rates_of,
}
use i_am_not_a_trader_bot.Report.Entries.{
  Entry, ReportFile, needs_trades, report_entry, report_entries, generate_report,
}
use i_am_not_a_trader_bot.Report.Verdicts.{AreEntries, generate_report-AreEntries}
use i_am_not_a_trader_bot.Report.Overlap.{both, pnl_at-overlap_diffs}
use i_am_not_a_trader_bot.Report.Checkpoints.{fundable_on-append, gate_rows}
use i_am_not_a_trader_bot.Examples.{now, config, cents, seconds}

-- A small gate: checkpoints at 1, 3, 5 and so on.
abbrev gate : GateConfig ℤ
gate = record { min_trades = 1; checkpoint_interval = 2; ci_level = cents 95 }

-- The interval from the first value to itself.
abbrev first_value : Bootstrap ℤ
first_value [] level = none
first_value (x ∷ xs) level = some (x, x)

abbrev won : ℕ → PnlRow ℤ
won k = record {
  trade = record {
    id = k;
    ts = seconds k;
    bucket_ts = Prim.Native.Nat.◌*◌ k 300;
    variant_id = "momentum-1";
    market_slug = "m";
    side = up;
    mode = Mode.shadow;
    intended_price = cents 70;
    filled_price = some (cents 71);
    stake_usd = cents 500;
    fee_usd = cents 3;
    status = filled;
    order_id = none;
  };
  filled_price = cents 71;
  outcome = up;
  pnl = cents 200;
}

same_checkpoint :
    checkpoint_for (length (gate_rows config (won 1 ∷ won 2 ∷ []))) gate
    ≡ checkpoint_for (length (gate_rows config (won 1 ∷ []))) gate
unfolding checkpoint_for chronological
same_checkpoint = refl

fundable_on-append_example :
    fundable_on first_value (won 1 ∷ won 2 ∷ []) gate config
    ≡ fundable_on first_value (won 1 ∷ []) gate config
fundable_on-append_example =
    fundable_on-append first_value gate config (won 1 ∷ []) (won 2 ∷ []) (omega arith)
      ((refl, tt), tt) same_checkpoint

-- The pnl by bucket of a champion and of a challenger.
abbrev champion : List (ℕ × ℤ)
champion = (300, cents 10) ∷ (600, cents 20) ∷ []

abbrev challenger : List (ℕ × ℤ)
challenger = (900, cents 99) ∷ (600, cents 50) ∷ []

pnl_at-overlap_diffs_example :
    pnl_at 600 (overlap_diffs champion challenger)
    ≡ both (pnl_at 600 challenger) (pnl_at 600 champion)
pnl_at-overlap_diffs_example = pnl_at-overlap_diffs 600 champion challenger

one_shared_bucket : overlap_diffs champion challenger ≡ (600, cents 30) ∷ []
unfolding overlap_diffs
one_shared_bucket = refl

-- Roots and logarithms of a world without them.
abbrev maths : Maths ℤ
maths = record { sqrt = λ x. ok x; log = λ x. ok x }

-- The quantile of 0.975 is in the middle of the distribution.
sixty_wins : wilson_interval maths 60 100 (cents 95) ≡ ok (pos 591593, pos 601009)
unfolding wilson_interval normal_quantile divide
sixty_wins = refl

abbrev numeric : Numeric ℤ
numeric = record {
  maths = maths;
  bootstrap = first_value;
  median = λ xs. cents 0;
  std = λ xs. cents 0;
  corrcoef = λ xs ys. cents 0;
}

-- A variant that has not traded.
abbrev blank_entry : Variant ℤ → Entry ℤ
blank_entry v = record {
  variant_id = v.id;
  status = v.status;
  stats = record {
    variant_id = v.id;
    n = 0;
    rates = none;
    ci = none;
    max_drawdown = cents 0;
    total_fees = cents 0;
    exit_before_resolution_rate = none;
    median_hold_sec = none;
    limit_order_pct = none;
    size_edge_correlation = none;
    profit_source = (cents 0, cents 0);
  };
  fundable = false;
  checkpoint_n = none;
  verdict = needs_trades 100 0;
}

abbrev blank_report : ReportFile ℤ
blank_report = record {
  generated_ts = now;
  trades = 0;
  evaluations = 0;
  resolutions = 0;
  ledger_export_stamp = none;
  ci_level = cents 95;
  min_trades = 100;
  checkpoint_interval = 50;
  variants = map blank_entry config.variants;
}

first_report : generate_report numeric empty_ledger config (ok none) now ≡ ok blank_report
unfolding generate_report report_entries report_entry compute_variant_stats build_variant_stats
    rates_of fundable_at_checkpoint fundable_on verdict_on checkpoint_for chronological max_drawdown
    realized_pnl_rows trades_for_variant pnl_rows
first_report = refl

generate_report-AreEntries_example :
    AreEntries numeric empty_ledger config config.variants (map blank_entry config.variants)
generate_report-AreEntries_example =
    generate_report-AreEntries numeric empty_ledger config (omega arith) (ok none) now blank_report
      first_report
