-- ===== src/Report/Verdicts.antt =====
-- The report says of each variant what the funding gate says.
use i_am_not_a_trader_bot.Prelude.{
  ℕ, ◌<◌, ◌≡◌, refl, sym, ap, subst, inl, inr, String, Bool, false, Option, none, some, List, [],
  ◌∷◌, length, keep, arith, if◌then◌else◌,
}
use i_am_not_a_trader_bot.Prelude.Result.{Result, ok, err, returned->>=, returned-map_ok, ◌>>=◌}
use i_am_not_a_trader_bot.Float.{Float}
use i_am_not_a_trader_bot.Config.{Config, GateConfig, Variant}
use i_am_not_a_trader_bot.Ledger.{
  Ledger, Mode, PnlRow, realized_pnl_rows, Trade, Resolution, trades_for_variant,
}
use i_am_not_a_trader_bot.Report.{
  chronological, checkpoint_for, fundable_on, fundable_at_checkpoint, verdict_on, at_reference,
}
use i_am_not_a_trader_bot.Report.Checkpoints.{IsCheckpoint, checkpoint_for-IsCheckpoint}
use i_am_not_a_trader_bot.Report.Stats.{
  Numeric, VariantStats, variant_stats, build_variant_stats, compute_variant_stats,
}
use i_am_not_a_trader_bot.Report.Entries.{
  Entry, ReportFile, needs_trades, fundable_at, not_above_zero_at, entry_of, report_entry,
  report_entries, generate_report,
}

module _ {F : Type 0} ⦃fl : Float F⦄ where
  module _ (numeric : Numeric F) where
    n-build_variant_stats :
        (id : String) (rows : List (PnlRow F)) (trades : List (Trade F))
        (resolutions : List (Resolution F)) (ci_level : F) (stats : VariantStats F)
        → build_variant_stats numeric id rows trades resolutions ci_level ≡ ok stats
        → stats.n ≡ length (chronological rows)
    unfolding build_variant_stats
    n-build_variant_stats id rows trades resolutions ci_level stats h =
        let (rates, at, same) =
          returned-map_ok
            (variant_stats numeric id (chronological rows) trades resolutions ci_level) _ h in
        sym (ap (λ (x : VariantStats F). x.n) same)

    -- What an entry says of its checkpoint and its verdict.
    pub data IsJudged (gate : GateConfig F) (e : Entry F) : Type 0 where
      too_few :
          e.checkpoint_n ≡ none
          → e.stats.n < gate.min_trades
          → e.fundable ≡ false
          → e.verdict ≡ needs_trades gate.min_trades e.stats.n
          → IsJudged gate e
      reached :
          (at_n : ℕ)
          → e.checkpoint_n ≡ some at_n
          → IsCheckpoint e.stats.n gate at_n
          → e.verdict ≡ (if e.fundable then fundable_at at_n else not_above_zero_at at_n)
          → IsJudged gate e

    verdict_on-IsJudged :
        (v : Variant F) (stats : VariantStats F) (gate : GateConfig F) (rows : List (PnlRow F))
        → 0 < gate.checkpoint_interval
        → stats.n ≡ length rows
        → IsJudged gate (
            entry_of v stats gate
              (verdict_on numeric.bootstrap rows gate (checkpoint_for (length rows) gate)))
    unfolding verdict_on
    verdict_on-IsJudged v stats gate rows positive same =
        elim (checkpoint_for-IsCheckpoint (length rows) gate positive) [
          | inl (early, few) ↦ rw early (too_few refl (omega (arith, same, few)) refl refl)
          | inr (at_n, at, checkpoint) ↦ rw at (
              reached at_n refl (subst (λ (n : ℕ). IsCheckpoint n gate at_n) (sym same) checkpoint)
                refl)
        ]

    module _ (l : Ledger F) (config : Config F) where
      pub record IsEntry (v : Variant F) (e : Entry F) : Type 0 where
        pub same_variant : e.variant_id ≡ v.id
        pub same_status : e.status ≡ v.status
        pub gated :
            fundable_at_checkpoint numeric.bootstrap l v.id config.gate config
            ≡ ok (e.fundable, e.checkpoint_n)
        pub judged : IsJudged config.gate e

      -- One entry for each variant, in their order.
      abbrev pub AreEntries : List (Variant F) → List (Entry F) → Type 0
      AreEntries [] [] = Unit
      AreEntries [] (e ∷ es) = ⊥
      AreEntries (v ∷ vs) [] = ⊥
      AreEntries (v ∷ vs) (e ∷ es) = IsEntry v e × AreEntries vs es

      returned-report_entry :
          (v : Variant F) (e : Entry F)
          → report_entry numeric l config v ≡ ok e
          → (stats : VariantStats F) × (gate : Bool × Option ℕ) × (compute_variant_stats numeric l
                v.id Mode.shadow config.gate.ci_level
                (some config.reference_stake_usd)
              ≡ ok stats)
            × (fundable_at_checkpoint numeric.bootstrap l v.id config.gate config ≡ ok gate)
            × (entry_of v stats config.gate gate ≡ e)
      unfolding report_entry
      returned-report_entry v e h =
          let finish : VariantStats F → Bool × Option ℕ → Result (Entry F) =
            λ stats gate. ok (entry_of v stats config.gate gate) in
          let (stats, computed, h1) =
            returned->>=
              (compute_variant_stats numeric l v.id Mode.shadow config.gate.ci_level
                (some config.reference_stake_usd))
              (λ stats.
                fundable_at_checkpoint numeric.bootstrap l v.id config.gate config >>= finish stats)
              h in
          let (gate, gated, h2) =
            returned->>= (fundable_at_checkpoint numeric.bootstrap l v.id config.gate config)
              (finish stats) h1 in
          (stats, gate, computed, gated, cc)

      -- The trades that the gate and the statistics count.
      abbrev counted : List (PnlRow F) → List (PnlRow F)
      counted rows = chronological (keep (at_reference config) rows)

      n-compute_variant_stats :
          (id : String) (stats : VariantStats F)
          → compute_variant_stats numeric l id Mode.shadow config.gate.ci_level
              (some config.reference_stake_usd)
            ≡ ok stats
          → (rows : List (PnlRow F)) × (realized_pnl_rows id Mode.shadow l ≡ ok rows)
            × (stats.n ≡ length (counted rows))
      unfolding compute_variant_stats
      n-compute_variant_stats id stats h =
          let build : List (PnlRow F) → Result (VariantStats F) = λ rows.
            build_variant_stats numeric id (keep (at_reference config) rows)
              (trades_for_variant id Mode.shadow l) l.resolutions config.gate.ci_level in
          let (rows, read, built) = returned->>= (realized_pnl_rows id Mode.shadow l) build h in
          (
            rows,
            read,
            n-build_variant_stats id (keep (at_reference config) rows)
                (trades_for_variant id Mode.shadow l) l.resolutions config.gate.ci_level stats
                built,
          )

      fundable_at_checkpoint_lem :
          (id : String) (rows : List (PnlRow F))
          → realized_pnl_rows id Mode.shadow l ≡ ok rows
          → fundable_at_checkpoint numeric.bootstrap l id config.gate config
            ≡ ok (
                verdict_on numeric.bootstrap
                  (counted rows)
                  config.gate
                  (checkpoint_for (length (counted rows)) config.gate))
      unfolding fundable_at_checkpoint fundable_on
      fundable_at_checkpoint_lem id rows read = rw read

      report_entry-IsEntry :
          0 < config.gate.checkpoint_interval
          → (v : Variant F) (e : Entry F) → report_entry numeric l config v ≡ ok e
          → IsEntry v e
      report_entry-IsEntry positive v e h =
          let (stats, gate, computed, gated, same) = returned-report_entry v e h in
          let (rows, read, counts) = n-compute_variant_stats v.id stats computed in
          let seen = fundable_at_checkpoint_lem v.id rows read in
          let judged = verdict_on-IsJudged v stats config.gate (counted rows) positive counts in
          let same_gate : verdict_on numeric.bootstrap (counted rows) config.gate
                (checkpoint_for (length (counted rows)) config.gate)
              ≡ gate =
            cc in
          subst (λ (x : Entry F). IsEntry v x) same
            (record {
              same_variant = refl;
              same_status = refl;
              gated = gated;
              judged =
                  subst
                    (λ (g : Bool × Option ℕ). IsJudged config.gate (entry_of v stats config.gate g))
                    same_gate judged;
            })

      report_entries-AreEntries :
          0 < config.gate.checkpoint_interval
          → (vs : List (Variant F)) (es : List (Entry F))
          → report_entries numeric l config vs ≡ ok es
          → AreEntries vs es
      unfolding report_entries
      report_entries-AreEntries positive [] [] h = tt
      report_entries-AreEntries positive [] (e ∷ es) h = cc
      report_entries-AreEntries positive (v ∷ vs) es h =
          let add : Entry F → List (Entry F) → Result (List (Entry F)) =
            λ entry rest. ok (entry ∷ rest) in
          let (entry, at_entry, h1) =
            returned->>= (report_entry numeric l config v)
              (λ entry. report_entries numeric l config vs >>= add entry) h in
          let (rest, at_rest, h2) =
            returned->>= (report_entries numeric l config vs) (add entry) h1 in
          let same : entry ∷ rest ≡ es = cc in
          subst (AreEntries (v ∷ vs)) same (
            report_entry-IsEntry positive v entry at_entry,
            report_entries-AreEntries positive vs rest at_rest,
          )

      abbrev entries_of : Result (ReportFile F) → List (Entry F)
      entries_of (err e) = []
      entries_of (ok report) = report.variants

      -- A report that is returned has one entry for each variant of the configuration, in their
      -- order, with the verdict of the funding gate that promotions follow: below the minimum of
      -- trades, which the statistics count, there is no checkpoint, no funding and the sentence that
      -- more trades are needed; from there on the entry names the last checkpoint that the count of
      -- the statistics has reached, and its sentence says whether the gate funds the variant.
      pub generate_report-AreEntries :
          0 < config.gate.checkpoint_interval
          → (stamp_file : Result (Option String)) (now : F) (report : ReportFile F)
          → generate_report numeric l config stamp_file now ≡ ok report
          → AreEntries config.variants report.variants
      unfolding generate_report
      generate_report-AreEntries positive (err e) now report h = cc
      generate_report-AreEntries positive (ok stamp) now report h =
          let (entries, at, same) =
            returned->>= (report_entries numeric l config config.variants) _ h in
          subst (AreEntries config.variants) (ap entries_of same)
            (report_entries-AreEntries positive config.variants entries at)
