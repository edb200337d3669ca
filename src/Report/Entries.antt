-- ===== src/Report/Entries.antt =====
-- analytics/report.py: `generate_report`, up to the report that it writes to two files.
use i_am_not_a_trader_bot.Prelude.{
  ℕ, String, Bool, Option, none, some, List, [], ◌∷◌, length, if◌then◌else◌,
}
use i_am_not_a_trader_bot.Prelude.Result.{Result, ok, ◌>>=◌}
use i_am_not_a_trader_bot.Float.{Float}
use i_am_not_a_trader_bot.Config.{Config, GateConfig, Variant, Status}
use i_am_not_a_trader_bot.Ledger.{Ledger, Mode}
use i_am_not_a_trader_bot.Report.{fundable_at_checkpoint}
use i_am_not_a_trader_bot.Report.Stats.{Numeric, VariantStats, compute_variant_stats}

-- The sentences of `_verdict`, with the numbers in them.
pub data Verdict : Type 0 where
  needs_trades : ℕ → ℕ → Verdict
  fundable_at not_above_zero_at : ℕ → Verdict

pub record Entry (F : Type 0) : Type 0 where
  pub variant_id : String
  pub status : Status
  pub stats : VariantStats F
  pub fundable : Bool
  pub checkpoint_n : Option ℕ
  pub verdict : Verdict

pub record ReportFile (F : Type 0) : Type 0 where
  pub generated_ts : F
  pub trades : ℕ
  pub evaluations : ℕ
  pub resolutions : ℕ
  pub ledger_export_stamp : Option String
  pub ci_level : F
  pub min_trades : ℕ
  pub checkpoint_interval : ℕ
  pub variants : List (Entry F)

module _ {F : Type 0} where
  abbrev pub verdict_of : VariantStats F → Bool → Option ℕ → GateConfig F → Verdict
  verdict_of stats fundable none gate = needs_trades gate.min_trades stats.n
  verdict_of stats fundable (some at_n) gate =
      if fundable then fundable_at at_n else not_above_zero_at at_n

  abbrev pub entry_of : Variant F → VariantStats F → GateConfig F → Bool × Option ℕ → Entry F
  entry_of v stats gate (fundable, checkpoint_n) = record {
    variant_id = v.id;
    status = v.status;
    stats = stats;
    fundable = fundable;
    checkpoint_n = checkpoint_n;
    verdict = verdict_of stats fundable checkpoint_n gate;
  }

module _ {F : Type 0} ⦃fl : Float F⦄ (numeric : Numeric F) (l : Ledger F) (config : Config F) where
  unfoldable pub report_entry : Variant F → Result (Entry F)
  report_entry v = do
    stats ←
        compute_variant_stats numeric l v.id Mode.shadow config.gate.ci_level
          (some config.reference_stake_usd)
    gate ← fundable_at_checkpoint numeric.bootstrap l v.id config.gate config
    ok (entry_of v stats config.gate gate)

  unfoldable pub report_entries : List (Variant F) → Result (List (Entry F))
  report_entries [] = ok []
  report_entries (v ∷ vs) = do entry ← report_entry v; rest ← report_entries vs; ok (entry ∷ rest)

  -- The stamp is what the read of its file gives, or raises.
  unfoldable pub generate_report : Result (Option String) → F → Result (ReportFile F)
  generate_report stamp_file now = do
    stamp ← stamp_file
    entries ← report_entries config.variants
    ok (record {
      generated_ts = now;
      trades = length l.trades;
      evaluations = length l.evaluations;
      resolutions = length l.resolutions;
      ledger_export_stamp = stamp;
      ci_level = config.gate.ci_level;
      min_trades = config.gate.min_trades;
      checkpoint_interval = config.gate.checkpoint_interval;
      variants = entries;
    })
