-- ===== src/Evolution/Samples.antt =====
-- engine/evolution.py: what a review reads in the ledger.
use i_am_not_a_trader_bot.Prelude.{
  ℕ, String, Bool, true, false, ◌&&◌, Option, none, some, List, [], ◌∷◌, ◌++◌, ◌==◌, str_eq,
  if◌then◌else◌,
}
use i_am_not_a_trader_bot.Prelude.Result.{Result, ok, ◌>>=◌}
use i_am_not_a_trader_bot.Float.{Float}
use i_am_not_a_trader_bot.Signals.{FeatureSnapshot}
use i_am_not_a_trader_bot.Rulesets.{Action}
use i_am_not_a_trader_bot.Ledger.{
  Ledger, EvaluationRow, Mode, PnlRow, SkipReason, realized_pnl_rows,
}
use i_am_not_a_trader_bot.Report.{chronological}
use i_am_not_a_trader_bot.Evolution.Splits.{Sample}

-- `decision = 'enter' AND skip_reason IS NULL`
abbrev pub is_accepted : Action → Option SkipReason → Bool
is_accepted Action.enter none = true
is_accepted Action.enter (some _) = false
is_accepted Action.skip _ = false

module _ {F : Type 0} where
  abbrev pub is_entry_of : String → ℕ → EvaluationRow F → Bool
  is_entry_of variant_id bucket_ts e =
      str_eq e.variant_id variant_id
      && e.bucket_ts == bucket_ts
      && is_accepted e.decision e.skip_reason

  -- `_entry_features(variant_id).get(bucket_ts)`: the first row counts.
  abbrev pub entry_features : String → ℕ → List (EvaluationRow F) → Option (FeatureSnapshot F)
  entry_features variant_id bucket_ts [] = none
  entry_features variant_id bucket_ts (e ∷ rest) =
      if is_entry_of variant_id bucket_ts e
      then some e.features
      else entry_features variant_id bucket_ts rest

  abbrev pub add_sample : PnlRow F → Option (FeatureSnapshot F) → List (Sample F) → List (Sample F)
  add_sample row none rest = rest
  add_sample row (some features) rest = (row.pnl, features) ∷ rest

  unfoldable pub samples_of : String → Ledger F → List (PnlRow F) → List (Sample F)
  samples_of variant_id l [] = []
  samples_of variant_id l (row ∷ rows) =
      add_sample row (entry_features variant_id row.trade.bucket_ts l.evaluations)
        (samples_of variant_id l rows)

module _ {F : Type 0} ⦃fl : Float F⦄ where
  unfoldable pub resolved_rows : String → Ledger F → Result (List (PnlRow F))
  resolved_rows variant_id l = do
    in_shadow ← realized_pnl_rows variant_id Mode.shadow l
    in_live ← realized_pnl_rows variant_id Mode.live l
    ok (chronological (in_shadow ++ in_live))
