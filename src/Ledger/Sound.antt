-- ===== src/Ledger/Sound.antt =====
-- Both promises of the ledger at once: the history is kept, and the constraints stay true.
use i_am_not_a_trader_bot.Prelude.{String, Option, ℕ}
use i_am_not_a_trader_bot.Ledger.Writes.{
  record_trade, update_trade_fill, record_resolution, attach_order_id, record_risk_event,
  record_evaluation, record_variant_event,
}
use i_am_not_a_trader_bot.Prelude.Py.{◌>>=◌, Exec}
use i_am_not_a_trader_bot.Ledger.Rows.{
  SkipReason, Mode, VariantEvent, TradeStatus, Outcome, RiskEvent, Ledger,
}
use i_am_not_a_trader_bot.Ledger.History.{Extends, Extends-refl, Extends-trans}
use i_am_not_a_trader_bot.Prelude.Keeps.{Keeps->>=, Keeps}
use i_am_not_a_trader_bot.Signals.{FeatureSnapshot, Side}
use i_am_not_a_trader_bot.Ledger.Discipline.{
  record_trade-KeepsHistory, record_evaluation-KeepsHistory, update_trade_fill-KeepsHistory,
  record_resolution-KeepsHistory, record_variant_event-KeepsHistory, attach_order_id-KeepsHistory,
  record_risk_event-KeepsHistory,
}
use i_am_not_a_trader_bot.Ledger.Validity.{
  record_trade-KeepsValid, update_trade_fill-KeepsValid, record_resolution-KeepsValid,
  attach_order_id-KeepsValid, IsValid,
}
use i_am_not_a_trader_bot.Rulesets.{Action}
use i_am_not_a_trader_bot.Config.{Params}

module _ {F : Type 0} where
  pub record IsSound (l l' : Ledger F) : Type 0 where
    pub extends : Extends l l'
    pub keeps_valid : IsValid l → IsValid l'

  pub IsSound-refl : (l : Ledger F) → IsSound l l
  IsSound-refl l = record { extends = Extends-refl l; keeps_valid = λ h. h }

  pub IsSound-trans : (l m n : Ledger F) → IsSound l m → IsSound m n → IsSound l n
  IsSound-trans l m n p q = record {
    extends = Extends-trans p.extends q.extends;
    keeps_valid = λ h. q.keeps_valid (p.keeps_valid h);
  }

  -- The same trades and resolutions satisfy the same constraints.
  abbrev pub KeepsSound : {A : Type 0} → Exec (Ledger F) A → Type 0
  KeepsSound m = Keeps IsSound m

  pub record_evaluation-KeepsSound :
      (ts : F) (bucket_ts : ℕ) (variant_id : String) (features : FeatureSnapshot F)
      (decision : Action) (skip_reason : Option SkipReason)
      → KeepsSound (record_evaluation ts bucket_ts variant_id features decision skip_reason)
  unfolding record_evaluation
  record_evaluation-KeepsSound ts b v f d s l = record {
    extends = record_evaluation-KeepsHistory ts b v f d s l;
    keeps_valid = λ h. record { entries = h.entries; ids = h.ids; markets = h.markets };
  }

  pub record_risk_event-KeepsSound :
      (ts : F) (event : RiskEvent F) → KeepsSound (record_risk_event ts event)
  unfolding record_risk_event
  record_risk_event-KeepsSound ts event l = record {
    extends = record_risk_event-KeepsHistory ts event l;
    keeps_valid = λ h. record { entries = h.entries; ids = h.ids; markets = h.markets };
  }

  pub record_variant_event-KeepsSound :
      (ts : F) (variant_id : String) (event : VariantEvent) (params : Params F)
      (parent : Option String)
      → KeepsSound (record_variant_event ts variant_id event params parent)
  unfolding record_variant_event
  record_variant_event-KeepsSound ts v e p q l = record {
    extends = record_variant_event-KeepsHistory ts v e p q l;
    keeps_valid = λ h. record { entries = h.entries; ids = h.ids; markets = h.markets };
  }

  pub record_resolution-KeepsSound :
      (bucket_ts : ℕ) (slug : String) (outcome : Outcome) (ts : Option F)
      → KeepsSound (record_resolution bucket_ts slug outcome ts)
  record_resolution-KeepsSound b slug o ts l = record {
    extends = record_resolution-KeepsHistory b slug o ts l;
    keeps_valid = record_resolution-KeepsValid b slug o ts l;
  }

  pub record_trade-KeepsSound :
      (ts : F) (b : ℕ) (v slug : String) (side : Side) (mode : Mode) (intended stake : F)
      (status : TradeStatus) (price : Option F) (fee : F)
      → KeepsSound (record_trade ts b v slug side mode intended stake status price fee)
  record_trade-KeepsSound ts b v slug side mode intended stake status price fee l = record {
    extends = record_trade-KeepsHistory ts b v slug side mode intended stake status price fee l;
    keeps_valid = record_trade-KeepsValid ts b v slug side mode intended stake status price fee l;
  }

  pub update_trade_fill-KeepsSound :
      (trade_id : ℕ) (price : Option F) (fee : F) (status : TradeStatus)
      → KeepsSound (update_trade_fill trade_id price fee status)
  update_trade_fill-KeepsSound trade_id price fee status l = record {
    extends = update_trade_fill-KeepsHistory trade_id price fee status l;
    keeps_valid = update_trade_fill-KeepsValid trade_id price fee status l;
  }

  pub attach_order_id-KeepsSound :
      (trade_id : ℕ) (order_id : String) → KeepsSound (attach_order_id trade_id order_id)
  attach_order_id-KeepsSound trade_id order_id l = record {
    extends = attach_order_id-KeepsHistory trade_id order_id l;
    keeps_valid = attach_order_id-KeepsValid trade_id order_id l;
  }

-- A call on a larger state, of which `view` is the ledger.
module _ {F S : Type 0} (view : S → Ledger F) where
  abbrev pub IsSoundAt : S → S → Type 0
  IsSoundAt s t = IsSound (view s) (view t)

  abbrev pub Sound : {A : Type 0} → Exec S A → Type 0
  Sound m = Keeps IsSoundAt m

  pub IsSoundAt-trans : (s t u : S) → IsSoundAt s t → IsSoundAt t u → IsSoundAt s u
  IsSoundAt-trans s t u = IsSound-trans (view s) (view t) (view u)

  pub Sound->>= :
      {A B : Type 0} (m : Exec S A) (f : A → Exec S B)
      → Sound m
      → ((a : A) → Sound (f a))
      → Sound (m >>= f)
  Sound->>= m f = Keeps->>= IsSoundAt m f IsSoundAt-trans
