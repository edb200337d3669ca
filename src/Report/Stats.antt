-- ===== src/Report/Stats.antt =====
-- analytics/report.py: `compute_variant_stats`. numpy's standard deviation and correlation, and the
-- median of `statistics`, are parameters.
use i_am_not_a_trader_bot.Prelude.{
  ℕ, String, Bool, true, false, ◌&&◌, Option, none, some, List, [], ◌∷◌, keep, count_if, foldl,
  length, map, leb, if◌then◌else◌,
}
use i_am_not_a_trader_bot.Prelude.Result.{Result, ok, map_ok, ◌>>=◌}
use i_am_not_a_trader_bot.Float.{Float, of_ℕ, nought, ◌≺◌, ◌≐◌, ◌⊕◌, ◌⊖◌}
use i_am_not_a_trader_bot.Signals.{Side}
use i_am_not_a_trader_bot.Ledger.{
  Ledger, Mode, PnlRow, Trade, TradeStatus, Resolution, is_resolution, side_eq, realized_pnl_rows,
  trades_for_variant,
}
use i_am_not_a_trader_bot.Report.{Bootstrap, chronological, max_drawdown, pnls}
use i_am_not_a_trader_bot.Report.Wilson.{Maths, wilson_interval}

pub record Numeric (F : Type 0) : Type 0 where
  pub maths : Maths F
  pub bootstrap : Bootstrap F
  pub median : List F → F
  pub std : List F → F
  pub corrcoef : List F → List F → F

-- Where a sample has no trade: mean, win rate and interval are None.
pub record Rates (F : Type 0) : Type 0 where
  pub mean_pnl : F
  pub win_rate : F
  pub wilson : F × F

pub record VariantStats (F : Type 0) : Type 0 where
  pub variant_id : String
  pub n : ℕ
  pub rates : Option (Rates F)
  pub ci : Option (F × F)
  pub max_drawdown : F
  pub total_fees : F
  pub exit_before_resolution_rate : Option F
  pub median_hold_sec : Option F
  pub limit_order_pct : Option F
  pub size_edge_correlation : Option F
  -- the pnl of trades whose market went up, and down
  pub profit_source : F × F

abbrev pub is_cancelled : TradeStatus → Bool
is_cancelled TradeStatus.cancelled = true
is_cancelled _ = false

abbrev pub latest {ℓ} : {A : Type ℓ} → Option A → Option A → Option A
latest (some a) earlier = some a
latest none earlier = earlier

module _ {F : Type 0} ⦃fl : Float F⦄ where
  -- `_resolution_ts_map(ledger).get((bucket_ts, market_slug))`: the last row counts.
  abbrev pub resolved_at : ℕ → String → List (Resolution F) → Option F
  resolved_at bucket_ts market_slug [] = none
  resolved_at bucket_ts market_slug (r ∷ rs) =
      latest (resolved_at bucket_ts market_slug rs)
        (if is_resolution bucket_ts market_slug r then r.resolved_ts else none)

  abbrev pub add_hold : PnlRow F → Option F → List F → List F
  add_hold r none rest = rest
  add_hold r (some at) rest = (at ⊖ r.trade.ts) ∷ rest

  abbrev pub holds : List (Resolution F) → List (PnlRow F) → List F
  holds resolutions [] = []
  holds resolutions (r ∷ rs) =
      add_hold r (resolved_at r.trade.bucket_ts r.trade.market_slug resolutions)
        (holds resolutions rs)

  -- `k / len(xs) if xs else None`
  abbrev pub share : ℕ → List (Trade F) → Option F
  share k [] = none
  share k (t ∷ ts) = some (fl.div (of_ℕ k) (of_ℕ (length (t ∷ ts))))

  abbrev pub add_source : F × F → PnlRow F → F × F
  add_source (from_up, from_down) r =
      if side_eq r.outcome Side.up
      then (from_up ⊕ r.pnl, from_down)
      else (from_up, from_down ⊕ r.pnl)

  module _ (numeric : Numeric F) where
    abbrev pub median_of : List F → Option F
    median_of [] = none
    median_of (x ∷ xs) = some (numeric.median (x ∷ xs))

    abbrev pub correlation : List F → List F → Option F
    correlation stakes pnl =
        if leb 2 (length stakes)
        then if nought ≺ numeric.std stakes && nought ≺ numeric.std pnl
          then some (numeric.corrcoef stakes pnl)
          else none
        else none

    unfoldable pub rates_of : ℕ → List F → F → Result (Option (Rates F))
    rates_of wins [] ci_level = ok none
    rates_of wins (x ∷ xs) ci_level =
        let n = length (x ∷ xs) in
        map_ok
          (λ wilson. some (record {
            mean_pnl = fl.div (foldl (λ (sum y : F). sum ⊕ y) nought (x ∷ xs)) (of_ℕ n);
            win_rate = fl.div (of_ℕ wins) (of_ℕ n);
            wilson = wilson;
          }))
          (wilson_interval numeric.maths wins n ci_level)

    abbrev pub variant_stats :
        String
        → List (PnlRow F)
        → List (Trade F)
        → List (Resolution F)
        → F
        → Option (Rates F)
        → VariantStats F
    variant_stats variant_id sorted trades resolutions ci_level rates = record {
      variant_id = variant_id;
      n = length sorted;
      rates = rates;
      ci = numeric.bootstrap (pnls sorted) ci_level;
      max_drawdown = max_drawdown (pnls sorted);
      total_fees = foldl (λ (sum : F) (r : PnlRow F). sum ⊕ r.trade.fee_usd) nought sorted;
      exit_before_resolution_rate =
          share (count_if (λ (t : Trade F). is_cancelled t.status) trades) trades;
      median_hold_sec = median_of (holds resolutions sorted);
      -- every row has an intended price
      limit_order_pct = share (length trades) trades;
      size_edge_correlation =
          correlation (map (λ (r : PnlRow F). r.trade.stake_usd) sorted) (pnls sorted);
      profit_source = foldl add_source (nought, nought) sorted;
    }

    -- `_build_stats`
    unfoldable pub build_variant_stats :
        String
        → List (PnlRow F)
        → List (Trade F)
        → List (Resolution F)
        → F
        → Result (VariantStats F)
    build_variant_stats variant_id rows trades resolutions ci_level =
        let sorted = chronological rows in
        let wins = count_if (λ (r : PnlRow F). side_eq r.outcome r.trade.side) sorted in
        map_ok (variant_stats variant_id sorted trades resolutions ci_level)
          (rates_of wins (pnls sorted) ci_level)

    abbrev pub at_stake : Option F → List (PnlRow F) → List (PnlRow F)
    at_stake none rows = rows
    at_stake (some stake) rows = keep (λ (r : PnlRow F). r.trade.stake_usd ≐ stake) rows

    unfoldable pub compute_variant_stats :
        Ledger F → String → Mode → F → Option F → Result (VariantStats F)
    compute_variant_stats l variant_id mode ci_level reference_stake_usd = do
      rows ← realized_pnl_rows variant_id mode l
      build_variant_stats variant_id (at_stake reference_stake_usd rows)
          (trades_for_variant variant_id mode l) l.resolutions ci_level
