-- ===== src/Ledger/Rows.antt =====
-- The tables of engine/ledger.py and their rows.
use i_am_not_a_trader_bot.Prelude.{
  ℕ, suc, String, Bool, true, false, not, Option, List, [], ◌∷◌, ltb, if◌then◌else◌,
}
use i_am_not_a_trader_bot.Signals.{Side, FeatureSnapshot}
use i_am_not_a_trader_bot.Config.{Params}
use i_am_not_a_trader_bot.Rulesets.{Action, Reason}

pub data Mode : Type 0 where
  shadow live : Mode

-- `opened` is the source's 'open', a word that is reserved here.
pub data TradeStatus : Type 0 where
  opened filled cancelled failed : TradeStatus

-- A real outcome is one of `GATE_OUTCOMES`, 'up' or 'down'.
pub data Outcome : Type 0 where
  real : Side → Outcome
  voided unresolved_timeout : Outcome

-- Why engine/risk.py refuses an entry.
pub data Rejection : Type 0 where
  not_an_entry stop_file_present failure_halt already_entered_bucket : Rejection
  stale_quote spread_too_wide book_too_thin too_close_to_close : Rejection
  daily_loss_cap daily_trade_cap no_positive_edge sized_to_zero : Rejection

-- The `skip_reason` column: a rule-set's reason, or `risk_rejected_<reason>`.
pub data SkipReason : Type 0 where
  by_ruleset : Reason → SkipReason
  risk_rejected : Rejection → SkipReason

pub data VariantEvent : Type 0 where
  created now_shadow pending_promotion now_live vetoed retired killed proposal_rejected :
      VariantEvent

-- A risk event's kind, with the values that its `detail` text is formatted from.
pub data RiskEvent (F : Type 0) : Type 0 where
  failure_halt : ℕ → ℕ → RiskEvent F
  stop_halt : RiskEvent F
  daily_loss_halt : String → F → F → RiskEvent F
  resolution_timeout : String → F → RiskEvent F
  ambiguous_submission_recovered : ℕ → String → RiskEvent F
  reconcile_filled reconcile_cancelled reconcile_stale_cancelled : ℕ → String → RiskEvent F
  reconcile_adopted cancel_not_confirmed : ℕ → String → RiskEvent F
  reconcile_orphan_ledger : ℕ → RiskEvent F
  reconcile_orphan_exchange : String → RiskEvent F
  strategy_md_drift : String → RiskEvent F
  evolution_spawn_skipped : RiskEvent F
  control_rejected control_error : String → RiskEvent F
  lesson_appended promotion_prose_appended : String → RiskEvent F
  allocation_applied : String → String → F → RiskEvent F

pub record EvaluationRow (F : Type 0) : Type 0 where
  pub id : ℕ
  pub ts : F
  pub bucket_ts : ℕ
  pub variant_id : String
  pub features : FeatureSnapshot F
  pub decision : Action
  pub skip_reason : Option SkipReason

pub record Trade (F : Type 0) : Type 0 where
  pub id : ℕ
  pub ts : F
  pub bucket_ts : ℕ
  pub variant_id : String
  pub market_slug : String
  pub side : Side
  pub mode : Mode
  pub intended_price : F
  pub filled_price : Option F
  pub stake_usd : F
  pub fee_usd : F
  pub status : TradeStatus
  pub order_id : Option String

pub record Resolution (F : Type 0) : Type 0 where
  pub id : ℕ
  pub bucket_ts : ℕ
  pub market_slug : String
  pub outcome : Outcome
  pub resolved_ts : Option F

pub record RiskRow (F : Type 0) : Type 0 where
  pub id : ℕ
  pub ts : F
  pub event : RiskEvent F

pub record VariantRow (F : Type 0) : Type 0 where
  pub id : ℕ
  pub ts : F
  pub variant_id : String
  pub event : VariantEvent
  pub params : Params F
  pub parent_variant_id : Option String

pub record PnlRow (F : Type 0) : Type 0 where
  pub trade : Trade F
  pub filled_price : F
  pub outcome : Side
  pub pnl : F

pub record Ledger (F : Type 0) : Type 0 where
  pub evaluations : List (EvaluationRow F)
  pub trades : List (Trade F)
  pub resolutions : List (Resolution F)
  pub risk_events : List (RiskRow F)
  pub variants : List (VariantRow F)

abbrev pub empty_ledger : {F : Type 0} → Ledger F
empty_ledger = record {
  evaluations = [];
  trades = [];
  resolutions = [];
  risk_events = [];
  variants = [];
}

-- SQLite's rowid for the next row: one above the largest.
abbrev pub next_id {ℓ} : {A : Type ℓ} → (A → ℕ) → List A → ℕ
next_id id [] = 1
next_id id (x ∷ xs) = let rest = next_id id xs in if ltb (id x) rest then rest else suc (id x)

abbrev pub side_eq : Side → Side → Bool
side_eq Side.up Side.up = true
side_eq Side.up Side.down = false
side_eq Side.down Side.up = false
side_eq Side.down Side.down = true

abbrev pub mode_eq : Mode → Mode → Bool
mode_eq Mode.shadow Mode.shadow = true
mode_eq Mode.shadow Mode.live = false
mode_eq Mode.live Mode.shadow = false
mode_eq Mode.live Mode.live = true

abbrev pub is_opened : TradeStatus → Bool
is_opened opened = true
is_opened filled = false
is_opened cancelled = false
is_opened failed = false

abbrev pub is_filled : TradeStatus → Bool
is_filled opened = false
is_filled filled = true
is_filled cancelled = false
is_filled failed = false

abbrev pub is_terminal : TradeStatus → Bool
is_terminal status = not (is_opened status)

abbrev pub is_real : Outcome → Bool
is_real (real _) = true
is_real voided = false
is_real unresolved_timeout = false
