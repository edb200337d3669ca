-- ===== src/Ledger/Discipline.antt =====
-- Every write of class Ledger keeps the history.
use i_am_not_a_trader_bot.Prelude.{
  ℕ, String, true, ◌≡◌, refl, Option, any, arith, Bool-cases, inl, inr,
}
use i_am_not_a_trader_bot.Prelude.Py.{Exec}
use i_am_not_a_trader_bot.Signals.{Side, FeatureSnapshot}
use i_am_not_a_trader_bot.Config.{Params}
use i_am_not_a_trader_bot.Rulesets.{Action}
use i_am_not_a_trader_bot.Ledger.Rows.{
  is_terminal, RiskEvent, SkipReason, Outcome, TradeStatus, VariantEvent, Mode, Ledger, Trade,
  is_opened,
}
use i_am_not_a_trader_bot.Ledger.Writes.{
  is_entry, is_resolution, is_open_row, update_row, record_variant_event, update_open,
  record_resolution, update_trade_fill, record_evaluation, attach_order_id, record_risk_event,
  record_trade,
}
use i_am_not_a_trader_bot.Ledger.History.{
  Extends-evaluations, Extends-variants, Extends-trades, Extends-risk_events, Extends-resolutions,
  Advances, Advances-refl, Grows-append, Grows-map, Extends, Extends-refl,
}

module _ {F : Type 0} where
  -- A write that keeps the history from every state, whether it returns or raises.
  abbrev pub KeepsHistory : {A : Type 0} → Exec (Ledger F) A → Type 0
  KeepsHistory m = (l : Ledger F) → Extends l (m l).1

  pub record_evaluation-KeepsHistory :
      (ts : F) (bucket_ts : ℕ) (variant_id : String) (features : FeatureSnapshot F)
      (decision : Action) (skip_reason : Option SkipReason)
      → KeepsHistory (record_evaluation ts bucket_ts variant_id features decision skip_reason)
  unfolding record_evaluation
  record_evaluation-KeepsHistory ts b v f d s l = Extends-evaluations l _ (_, refl)

  pub record_risk_event-KeepsHistory :
      (ts : F) (event : RiskEvent F) → KeepsHistory (record_risk_event ts event)
  unfolding record_risk_event
  record_risk_event-KeepsHistory ts event l = Extends-risk_events l _ (_, refl)

  pub record_variant_event-KeepsHistory :
      (ts : F) (variant_id : String) (event : VariantEvent) (params : Params F)
      (parent : Option String)
      → KeepsHistory (record_variant_event ts variant_id event params parent)
  unfolding record_variant_event
  record_variant_event-KeepsHistory ts v e p q l = Extends-variants l _ (_, refl)

  pub record_resolution-KeepsHistory :
      (bucket_ts : ℕ) (slug : String) (outcome : Outcome) (ts : Option F)
      → KeepsHistory (record_resolution bucket_ts slug outcome ts)
  unfolding record_resolution
  record_resolution-KeepsHistory b slug o ts l =
      elim (Bool-cases (any (is_resolution b slug) l.resolutions)) [
        | inl there ↦ rw there (Extends-refl l)
        | inr fresh ↦ rw fresh (Extends-resolutions l _ (_, refl))
      ]

  pub record_trade-KeepsHistory :
      (ts : F) (b : ℕ) (v slug : String) (side : Side) (mode : Mode) (intended stake : F)
      (status : TradeStatus) (price : Option F) (fee : F)
      → KeepsHistory (record_trade ts b v slug side mode intended stake status price fee)
  unfolding record_trade
  record_trade-KeepsHistory ts b v slug side mode intended stake status price fee l =
      elim (Bool-cases (any (is_entry b v mode) l.trades)) [
        | inl there ↦ rw there (Extends-refl l)
        | inr fresh ↦ rw fresh (Extends-trades l _ (Grows-append l.trades _))
      ]

  update_open-KeepsHistory :
      (trade_id : ℕ) (f : Trade F → Trade F)
      → ((t : Trade F) → is_opened t.status ≡ true → Advances t (f t))
      → KeepsHistory (update_open trade_id f)
  unfolding update_open
  update_open-KeepsHistory trade_id f step l = Extends-trades l _ (Grows-map _ row l.trades)
    where
      row : (t : Trade F) → Advances t (update_row (is_open_row trade_id) f t)
      row t = elim (Bool-cases (is_open_row trade_id t)) [
        | inl hit ↦ rw hit (step t (ground arith))
        | inr miss ↦ rw miss (Advances-refl t)
      ]

  pub update_trade_fill-KeepsHistory :
      (trade_id : ℕ) (price : Option F) (fee : F) (status : TradeStatus)
      → KeepsHistory (update_trade_fill trade_id price fee status)
  unfolding update_trade_fill
  update_trade_fill-KeepsHistory trade_id price fee status l =
      elim (Bool-cases (is_terminal status)) [
        | inr opened_again ↦ rw opened_again (Extends-refl l)
        | inl terminal ↦ rw terminal (
            update_open-KeepsHistory trade_id
              (λ t. record t { filled_price = price; fee_usd = fee; status = status })
              (λ t is_open. record {
                same_id = refl;
                same_ts = refl;
                same_bucket = refl;
                same_variant = refl;
                same_market = refl;
                same_side = refl;
                same_mode = refl;
                same_intended = refl;
                same_stake = refl;
                frozen = inl is_open;
              })
              l)
      ]

  pub attach_order_id-KeepsHistory :
      (trade_id : ℕ) (order_id : String) → KeepsHistory (attach_order_id trade_id order_id)
  unfolding attach_order_id
  attach_order_id-KeepsHistory trade_id order_id = update_open-KeepsHistory trade_id _ λ t is_open.
      record {
        same_id = refl;
        same_ts = refl;
        same_bucket = refl;
        same_variant = refl;
        same_market = refl;
        same_side = refl;
        same_mode = refl;
        same_intended = refl;
        same_stake = refl;
        frozen = inl is_open;
      }
