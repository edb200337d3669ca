-- ===== src/Ledger/Runs.antt =====
-- Any sequence of the ledger's writes, in the order of their calls.
use i_am_not_a_trader_bot.Prelude.{
  arith, Option, ◌∙◌, ◌⊎◌, String, ◌≡◌, List, ℕ, ◌∷◌, [], inr, inl, false,
}
use i_am_not_a_trader_bot.Ledger.Rows.{
  VariantEvent, RiskEvent, Outcome, TradeStatus, Mode, SkipReason, empty_ledger, is_opened, Ledger,
  Trade,
}
use i_am_not_a_trader_bot.Ledger.Writes.{
  record_variant_event, record_risk_event, record_resolution, attach_order_id, update_trade_fill,
  record_trade, record_evaluation,
}
use i_am_not_a_trader_bot.Ledger.Sound.{
  record_variant_event-KeepsSound, record_risk_event-KeepsSound, record_resolution-KeepsSound,
  attach_order_id-KeepsSound, update_trade_fill-KeepsSound, IsSound-trans, record_trade-KeepsSound,
  record_evaluation-KeepsSound, IsSound-refl, IsSound,
}
use i_am_not_a_trader_bot.Ledger.Validity.{empty_ledger-IsValid, IsValid}
use i_am_not_a_trader_bot.Ledger.History.{Grows}
use i_am_not_a_trader_bot.Signals.{Side, FeatureSnapshot}
use i_am_not_a_trader_bot.Rulesets.{Action}
use i_am_not_a_trader_bot.Config.{Params}

pub data Write (F : Type 0) : Type 0 where
  evaluation : F → ℕ → String → FeatureSnapshot F → Action → Option SkipReason → Write F
  trade : F → ℕ → String → String → Side → Mode → F → F → TradeStatus → Option F → F → Write F
  fill : ℕ → Option F → F → TradeStatus → Write F
  order : ℕ → String → Write F
  resolution : ℕ → String → Outcome → Option F → Write F
  risk_event : F → RiskEvent F → Write F
  variant_event : F → String → VariantEvent → Params F → Option String → Write F

module _ {F : Type 0} where
  -- The ledger after a call, whether it returned or raised.
  unfoldable pub perform : Write F → Ledger F → Ledger F
  perform (evaluation ts b v f d s) l = (record_evaluation ts b v f d s l).1
  perform (trade ts b v slug side mode p stake status at fee) l =
      (record_trade ts b v slug side mode p stake status at fee l).1
  perform (fill k price fee status) l = (update_trade_fill k price fee status l).1
  perform (order k order_id) l = (attach_order_id k order_id l).1
  perform (resolution b slug outcome ts) l = (record_resolution b slug outcome ts l).1
  perform (risk_event ts e) l = (record_risk_event ts e l).1
  perform (variant_event ts v e p parent) l = (record_variant_event ts v e p parent l).1

  unfoldable pub run : List (Write F) → Ledger F → Ledger F
  run [] l = l
  run (w ∷ ws) l = run ws (perform w l)

  perform-IsSound : (w : Write F) (l : Ledger F) → IsSound l (perform w l)
  unfolding perform
  perform-IsSound (evaluation ts b v f d s) l = record_evaluation-KeepsSound ts b v f d s l
  perform-IsSound (trade ts b v slug side mode p stake status at fee) l =
      record_trade-KeepsSound ts b v slug side mode p stake status at fee l
  perform-IsSound (fill k price fee status) l = update_trade_fill-KeepsSound k price fee status l
  perform-IsSound (order k order_id) l = attach_order_id-KeepsSound k order_id l
  perform-IsSound (resolution b slug outcome ts) l =
      record_resolution-KeepsSound b slug outcome ts l
  perform-IsSound (risk_event ts e) l = record_risk_event-KeepsSound ts e l
  perform-IsSound (variant_event ts v e p parent) l =
      record_variant_event-KeepsSound ts v e p parent l

  pub run-IsSound : (ws : List (Write F)) (l : Ledger F) → IsSound l (run ws l)
  unfolding run
  run-IsSound [] l = IsSound-refl l
  run-IsSound (w ∷ ws) l =
      IsSound-trans l (perform w l) (run ws (perform w l)) (perform-IsSound w l)
        (run-IsSound ws (perform w l))

  -- Whatever the sequence of writes from the empty ledger, refused ones included, no two trades
  -- share a bucket, variant and mode, no two trades an id, and no two resolutions a market.
  pub run-IsValid : (ws : List (Write F)) → IsValid (run ws empty_ledger)
  run-IsValid ws = (run-IsSound ws empty_ledger).keeps_valid empty_ledger-IsValid

  abbrev pub Within : Trade F → List (Trade F) → Type 0
  Within t [] = ⊥
  Within t (u ∷ us) = (u ≡ t) ⊎ Within t us

  Grows-Within :
      (t : Trade F) (us vs : List (Trade F))
      → is_opened t.status ≡ false
      → Grows us vs
      → Within t us
      → Within t vs
  Grows-Within t [] vs closed g h = absurd h
  Grows-Within t (u ∷ us) [] closed g h = absurd g
  Grows-Within t (u ∷ us) (v ∷ vs) closed g (inl same) = elim g.0.frozen [
    | inl is_open ↦ absurd (ground (arith, same))
    | inr kept ↦ inl (kept ∙ same)
  ]
  Grows-Within t (u ∷ us) (v ∷ vs) closed g (inr rest) = inr (Grows-Within t us vs closed g.1 rest)

  -- A trade that is filled, cancelled or failed stays in the ledger as it is, field by field,
  -- whatever writes follow.
  pub run-Within :
      (ws : List (Write F)) (l : Ledger F) (t : Trade F)
      → is_opened t.status ≡ false
      → Within t l.trades
      → Within t (run ws l).trades
  run-Within ws l t closed h =
      Grows-Within t l.trades (run ws l).trades closed (run-IsSound ws l).extends.trades h
