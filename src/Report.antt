-- ===== src/Report.antt =====
-- analytics/report.py: the funding and kill gates, the paired comparison and the drawdown. The
-- bootstrap interval is numpy's resampling: a parameter, from the sample and the level to the ends.
pub mod Checkpoints
pub mod Overlap
pub mod Wilson
pub mod Stats
pub mod Entries
pub mod Verdicts
use i_am_not_a_trader_bot.Prelude.Result.{map_ok, Result, err, ok}
use i_am_not_a_trader_bot.Prelude.{
  ◌*◌, ◌/◌, ◌-◌, ◌&&◌, ◌+◌, count_if, ◌==◌, ltb, keep, take, leb, map, Bool, foldl, length,
  if◌then◌else◌, List, String, Option, ◌∷◌, [], some, none, false, ℕ,
}
use i_am_not_a_trader_bot.Float.{◌⊗◌, ◌≺◌, max, of_ℕ, ◌≐◌, nought, ◌⊖◌, ◌⊕◌, Float}
use i_am_not_a_trader_bot.Config.{KillConfig, GateConfig, Config}
use i_am_not_a_trader_bot.Ledger.{Mode, realized_pnl_rows, side_eq, Ledger, PnlRow}

-- `bootstrap_mean_ci`: None for an empty sample.
abbrev pub Bootstrap : Type 0 → Type 0
Bootstrap F = List F → F → Option (F × F)

-- The fields of VariantStats that the gates read.
pub record GateStats (F : Type 0) : Type 0 where
  pub n : ℕ
  pub ci : Option (F × F)
  pub max_drawdown : F
  pub total_fees : F
  pub wins : ℕ

pub record PairedResult (F : Type 0) : Type 0 where
  pub champion_id : String
  pub challenger_id : String
  pub n_overlap : ℕ
  pub mean_diff : Option F
  pub ci : Option (F × F)
  pub challenger_wins : Bool

-- Why a live variant is defunded.
pub data KillReason : Type 0 where
  ci_negative drawdown daily_cap_hits : KillReason

module _ {F : Type 0} ⦃fl : Float F⦄ where
  -- The loop of `max_drawdown`, over (cum, peak, worst).
  unfoldable pub drawdown_from : F → F → F → List F → F
  drawdown_from cum peak worst [] = worst
  drawdown_from cum peak worst (p ∷ ps) =
      drawdown_from (cum ⊕ p) (max peak (cum ⊕ p)) (max worst (max peak (cum ⊕ p) ⊖ (cum ⊕ p))) ps

  unfoldable pub max_drawdown : List F → F
  unfolding drawdown_from
  max_drawdown pnls = drawdown_from nought nought nought pnls

  -- The order of `key=lambda r: (r.ts, r.trade_id)`: is `a` before `b`?
  abbrev pub before : PnlRow F → PnlRow F → Bool
  before a b =
      if a.trade.ts ≐ b.trade.ts then ltb a.trade.id b.trade.id else a.trade.ts ≺ b.trade.ts

  -- A stable sort.
  abbrev pub insert_row : PnlRow F → List (PnlRow F) → List (PnlRow F)
  insert_row r [] = r ∷ []
  insert_row r (q ∷ qs) =
      let after = insert_row r qs in if before q r then q ∷ after else r ∷ q ∷ qs

  unfoldable pub chronological : List (PnlRow F) → List (PnlRow F)
  chronological [] = []
  chronological (r ∷ rs) = insert_row r (chronological rs)

  abbrev pub pnls : List (PnlRow F) → List F
  pnls rows = map (λ (r : PnlRow F). r.pnl) rows

  module _ (bootstrap : Bootstrap F) where
    -- `_build_stats`, as far as the gates read it.
    unfoldable pub build_stats : List (PnlRow F) → F → GateStats F
    build_stats rows ci_level =
        let sorted = chronological rows in
        record {
          n = length sorted;
          ci = bootstrap (pnls sorted) ci_level;
          max_drawdown = max_drawdown (pnls sorted);
          total_fees = foldl (λ (sum : F) (r : PnlRow F). sum ⊕ r.trade.fee_usd) nought sorted;
          wins = count_if (λ (r : PnlRow F). side_eq r.outcome r.trade.side) sorted;
        }

    abbrev pub above_zero : Option (F × F) → Bool
    above_zero none = false
    above_zero (some (low, high)) = nought ≺ low

    abbrev pub below_zero : Option (F × F) → Bool
    below_zero none = false
    below_zero (some (low, high)) = high ≺ nought

    unfoldable pub is_fundable : GateStats F → GateConfig F → Bool
    is_fundable stats gate = leb gate.min_trades stats.n && above_zero stats.ci

  -- The largest checkpoint min_trades + k * interval up to n.
  unfoldable pub checkpoint_for : ℕ → GateConfig F → Option ℕ
  checkpoint_for n gate =
      if ltb n gate.min_trades
      then none
      else some (
          gate.min_trades
          + (n - gate.min_trades) / gate.checkpoint_interval * gate.checkpoint_interval)

  abbrev pub at_reference : Config F → PnlRow F → Bool
  at_reference config r = r.trade.stake_usd ≐ config.reference_stake_usd

  module _ (bootstrap : Bootstrap F) where
    -- The verdict on chronological rows: only the first checkpoint_n of them count.
    unfoldable pub verdict_on : List (PnlRow F) → GateConfig F → Option ℕ → Bool × Option ℕ
    verdict_on rows gate none = (false, none)
    verdict_on rows gate (some n) =
        (is_fundable bootstrap (build_stats bootstrap (take n rows) gate.ci_level) gate, some n)

    unfoldable pub fundable_on : List (PnlRow F) → GateConfig F → Config F → Bool × Option ℕ
    fundable_on all_rows gate config =
        let rows = chronological (keep (at_reference config) all_rows) in
        verdict_on rows gate (checkpoint_for (length rows) gate)

    unfoldable pub fundable_at_checkpoint :
        Ledger F → String → GateConfig F → Config F → Result (Bool × Option ℕ)
    fundable_at_checkpoint l variant_id gate config =
        map_ok (λ rows. fundable_on rows gate config) (realized_pnl_rows variant_id Mode.shadow l)

    unfoldable pub should_kill : GateStats F → KillConfig F → F → ℕ → Option KillReason
    should_kill stats kill allocation_usd hits =
        if below_zero bootstrap stats.ci
        then some ci_negative
        else if (fl.div kill.drawdown_pct_of_allocation (of_ℕ 100) ⊗ allocation_usd)
            ≺ stats.max_drawdown
        then some drawdown
        else if leb kill.consecutive_daily_cap_hits hits
        then some daily_cap_hits
        else none

  -- `out[bucket] = out.get(bucket, 0.0) + pnl`, over a dict by bucket.
  abbrev pub add_pnl : ℕ → F → List (ℕ × F) → List (ℕ × F)
  add_pnl b x [] = (b, nought ⊕ x) ∷ []
  add_pnl b x ((c, y) ∷ rest) =
      let after = add_pnl b x rest in if b == c then (c, y ⊕ x) ∷ rest else (c, y) ∷ after

  abbrev pub by_bucket : List (ℕ × F) → List (PnlRow F) → List (ℕ × F)
  by_bucket out [] = out
  by_bucket out (r ∷ rs) = by_bucket (add_pnl r.trade.bucket_ts r.pnl out) rs

  abbrev pub both_modes :
      Result (List (PnlRow F)) → Result (List (PnlRow F)) → Result (List (ℕ × F))
  both_modes (err e) live = err e
  both_modes (ok shadow_rows) live =
      map_ok (λ live_rows. by_bucket (by_bucket [] shadow_rows) live_rows) live

  unfoldable pub bucket_pnl : String → Ledger F → Result (List (ℕ × F))
  bucket_pnl variant_id l =
      both_modes (realized_pnl_rows variant_id Mode.shadow l)
        (realized_pnl_rows variant_id Mode.live l)

  abbrev pub pnl_at : ℕ → List (ℕ × F) → Option F
  pnl_at b [] = none
  pnl_at b ((c, y) ∷ rest) = if b == c then some y else pnl_at b rest

  -- `sorted(set(champ) & set(chall))`, each bucket with chall[b] - champ[b].
  abbrev pub insert_diff : ℕ → F → List (ℕ × F) → List (ℕ × F)
  insert_diff b x [] = (b, x) ∷ []
  insert_diff b x ((c, y) ∷ rest) =
      let after = insert_diff b x rest in if ltb c b then (c, y) ∷ after else (b, x) ∷ (c, y) ∷ rest

  unfoldable pub overlap_diffs : List (ℕ × F) → List (ℕ × F) → List (ℕ × F)
  overlap_diffs champ [] = []
  overlap_diffs champ ((b, y) ∷ rest) = elim (pnl_at b champ) [
    | none ↦ overlap_diffs champ rest
    | some x ↦ insert_diff b (y ⊖ x) (overlap_diffs champ rest)
  ]

  abbrev pub mean_of : List F → Option F
  mean_of [] = none
  mean_of (x ∷ xs) =
      some (fl.div (foldl (λ (sum y : F). sum ⊕ y) nought (x ∷ xs)) (of_ℕ (length (x ∷ xs))))

  module _ (bootstrap : Bootstrap F) where
    abbrev pub compare_diffs : String → String → F → List F → PairedResult F
    compare_diffs champion challenger ci_level [] = record {
      champion_id = champion;
      challenger_id = challenger;
      n_overlap = 0;
      mean_diff = none;
      ci = none;
      challenger_wins = false;
    }
    compare_diffs champion challenger ci_level (d ∷ ds) = record {
      champion_id = champion;
      challenger_id = challenger;
      n_overlap = length (d ∷ ds);
      mean_diff = mean_of (d ∷ ds);
      ci = bootstrap (d ∷ ds) ci_level;
      challenger_wins = above_zero bootstrap (bootstrap (d ∷ ds) ci_level);
    }

    abbrev pub compare_buckets :
        String
        → String
        → F
        → Result (List (ℕ × F))
        → Result (List (ℕ × F))
        → Result (PairedResult F)
    compare_buckets champion challenger ci_level (err e) chall = err e
    compare_buckets champion challenger ci_level (ok champ) chall =
        map_ok
          (λ buckets.
            compare_diffs champion challenger ci_level
              (map (λ (d : ℕ × F). d.1) (overlap_diffs champ buckets)))
          chall

    unfoldable pub paired_comparison : Ledger F → String → String → F → Result (PairedResult F)
    paired_comparison l champion challenger ci_level =
        compare_buckets champion challenger ci_level (bucket_pnl champion l)
          (bucket_pnl challenger l)
