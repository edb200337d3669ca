-- ===== src/Ledger/Writes.antt =====
-- The writes of class Ledger. An insert that a UNIQUE refuses raises and writes nothing.
use i_am_not_a_trader_bot.Prelude.{
  ℕ, String, Bool, ◌&&◌, Option, none, some, [], ◌∷◌, ◌++◌, map, any, count_if, str_eq, ◌==◌,
  if◌then◌else◌,
}
use i_am_not_a_trader_bot.Prelude.Result.{ok, err, integrity_error, ledger_error}
use i_am_not_a_trader_bot.Prelude.Py.{Exec}
use i_am_not_a_trader_bot.Signals.{Side, FeatureSnapshot}
use i_am_not_a_trader_bot.Config.{Params}
use i_am_not_a_trader_bot.Rulesets.{Action}
use i_am_not_a_trader_bot.Ledger.Rows.{
  Mode, TradeStatus, Outcome, SkipReason, VariantEvent, RiskEvent, EvaluationRow, Trade, Resolution,
  RiskRow, VariantRow, Ledger, next_id, mode_eq, is_opened, is_terminal,
}

module _ {F : Type 0} where
  unfoldable pub record_evaluation :
      F → ℕ → String → FeatureSnapshot F → Action → Option SkipReason → Exec (Ledger F) ℕ
  record_evaluation ts bucket_ts variant_id features decision skip_reason l =
      let id = next_id (λ (e : EvaluationRow F). e.id) l.evaluations in
      (
        ok id,
        record l {
          evaluations =
              l.evaluations
              ++ record {
                id = id;
                ts = ts;
                bucket_ts = bucket_ts;
                variant_id = variant_id;
                features = features;
                decision = decision;
                skip_reason = skip_reason;
              }
                ∷ [];
        },
      )

  -- Is the row the one entry of this bucket, variant and mode?
  abbrev pub is_entry : ℕ → String → Mode → Trade F → Bool
  is_entry bucket_ts variant_id mode t =
      t.bucket_ts == bucket_ts && str_eq t.variant_id variant_id && mode_eq t.mode mode

  unfoldable pub record_trade :
      F → ℕ → String → String → Side → Mode → F → F → TradeStatus → Option F → F → Exec (Ledger F) ℕ
  record_trade ts bucket_ts variant_id market_slug side mode intended stake status filled_at fee l =
      let id = next_id (λ (t : Trade F). t.id) l.trades in
      if any (is_entry bucket_ts variant_id mode) l.trades then (err integrity_error, l) else (
        ok id,
        record l {
          trades =
              l.trades
              ++ record {
                id = id;
                ts = ts;
                bucket_ts = bucket_ts;
                variant_id = variant_id;
                market_slug = market_slug;
                side = side;
                mode = mode;
                intended_price = intended;
                filled_price = filled_at;
                stake_usd = stake;
                fee_usd = fee;
                status = status;
                order_id = none;
              }
                ∷ [];
        },
      )

  -- `WHERE id = ? AND status = 'open'`
  abbrev pub is_open_row : ℕ → Trade F → Bool
  is_open_row trade_id t = t.id == trade_id && is_opened t.status

  abbrev pub update_row : (Trade F → Bool) → (Trade F → Trade F) → Trade F → Trade F
  update_row p f t = if p t then f t else t

  -- One UPDATE of the open row with this id. `rowcount` is the number of rows that it changed;
  -- where it is not one, the row is missing or terminal, and LedgerError is raised.
  unfoldable pub update_open : ℕ → (Trade F → Trade F) → Exec (Ledger F) (Unit {0})
  update_open trade_id f l = (
    (if count_if (is_open_row trade_id) l.trades == 1 then ok tt else err ledger_error),
    record l { trades = map (update_row (is_open_row trade_id) f) l.trades },
  )

  unfoldable pub update_trade_fill : ℕ → Option F → F → TradeStatus → Exec (Ledger F) (Unit {0})
  unfolding update_open
  update_trade_fill trade_id filled_price fee_usd status l =
      if is_terminal status
      then update_open trade_id
          (λ t. record t { filled_price = filled_price; fee_usd = fee_usd; status = status }) l
      else (err ledger_error, l)

  unfoldable pub attach_order_id : ℕ → String → Exec (Ledger F) (Unit {0})
  unfolding update_open
  attach_order_id trade_id order_id =
      update_open trade_id (λ t. record t { order_id = some order_id })

  abbrev pub is_resolution : ℕ → String → Resolution F → Bool
  is_resolution bucket_ts market_slug r =
      r.bucket_ts == bucket_ts && str_eq r.market_slug market_slug

  unfoldable pub record_resolution : ℕ → String → Outcome → Option F → Exec (Ledger F) ℕ
  record_resolution bucket_ts market_slug outcome resolved_ts l =
      let id = next_id (λ (r : Resolution F). r.id) l.resolutions in
      if any (is_resolution bucket_ts market_slug) l.resolutions
      then (err integrity_error, l)
      else (
        ok id,
        record l {
          resolutions =
              l.resolutions
              ++ record {
                id = id;
                bucket_ts = bucket_ts;
                market_slug = market_slug;
                outcome = outcome;
                resolved_ts = resolved_ts;
              }
                ∷ [];
        },
      )

  unfoldable pub record_risk_event : F → RiskEvent F → Exec (Ledger F) ℕ
  record_risk_event ts event l =
      let id = next_id (λ (r : RiskRow F). r.id) l.risk_events in
      (
        ok id,
        record l { risk_events = l.risk_events ++ record { id = id; ts = ts; event = event } ∷ [] },
      )

  unfoldable pub record_variant_event :
      F → String → VariantEvent → Params F → Option String → Exec (Ledger F) ℕ
  record_variant_event ts variant_id event params parent l =
      let id = next_id (λ (v : VariantRow F). v.id) l.variants in
      (
        ok id,
        record l {
          variants =
              l.variants
              ++ record {
                id = id;
                ts = ts;
                variant_id = variant_id;
                event = event;
                params = params;
                parent_variant_id = parent;
              }
                ∷ [];
        },
      )
