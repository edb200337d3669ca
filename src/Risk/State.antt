-- ===== src/Risk/State.antt =====
-- class RiskManager: its state, the failure count and the halts.
use i_am_not_a_trader_bot.Prelude.{
  ℕ, ◌+◌, String, Bool, true, false, not, ◌&&◌, Option, none, some, leb, if◌then◌else◌,
}
use i_am_not_a_trader_bot.Prelude.Result.{ok}
use i_am_not_a_trader_bot.Prelude.Py.{Exec, pure, gets, ◌>>=◌, ◌>>◌}
use i_am_not_a_trader_bot.Config.{Config}
use i_am_not_a_trader_bot.Ledger.{Ledger, RiskEvent, Rejection, record_risk_event}
use i_am_not_a_trader_bot.Risk.Sizing.{Approved}

-- The in-memory state of a RiskManager.
pub record RiskState : Type 0 where
  pub consecutive_failures : ℕ
  pub stop_event_recorded : Bool
  pub failure_event_recorded : Bool
  pub loss_halt_day : Option String

abbrev pub new_risk_state : RiskState
new_risk_state = record {
  consecutive_failures = 0;
  stop_event_recorded = false;
  failure_event_recorded = false;
  loss_halt_day = none;
}

-- The objects that the engine's calls change: the ledger, and the risk manager's own fields.
pub record World (F : Type 0) : Type 0 where
  pub ledger : Ledger F
  pub risk : RiskState

pub record Rejected : Type 0 where
  pub variant_id : String
  pub bucket_ts : ℕ
  pub reason : Rejection

pub data Verdict (F : Type 0) : Type 0 where
  approved : Approved F → Verdict F
  rejected : Rejected → Verdict F

module _ {F : Type 0} where
  abbrev pub on_ledger : {A : Type 0} → Exec (Ledger F) A → Exec (World F) A
  on_ledger m w = let (r, l) = m w.ledger in (r, record w { ledger = l })

  abbrev pub record_event : F → RiskEvent F → Exec (World F) (Unit {0})
  record_event now event w = (ok tt, record w { ledger = (record_risk_event now event w.ledger).1 })

  abbrev pub set_risk : (RiskState → RiskState) → Exec (World F) (Unit {0})
  set_risk f w = (ok tt, record w { risk = f w.risk })

  unfoldable pub record_failure : Config F → F → Exec (World F) (Unit {0})
  record_failure config now w =
      let failures = w.risk.consecutive_failures + 1 in
      let threshold = config.risk.consecutive_failure_halt in
      if leb threshold failures && not w.risk.failure_event_recorded
      then (do
        set_risk (λ r. record r { consecutive_failures = failures; failure_event_recorded = true })
        record_event now (RiskEvent.failure_halt failures threshold))
          w
      else set_risk (λ r. record r { consecutive_failures = failures }) w

  unfoldable pub record_success : Exec (World F) (Unit {0})
  record_success =
      set_risk (λ r. record r { consecutive_failures = 0; failure_event_recorded = false })

  -- `stop` is whether the STOP file exists when the call looks.
  unfoldable pub stop_active : Bool → F → Exec (World F) Bool
  stop_active false now w =
      (ok false, record w { risk = record (w.risk) { stop_event_recorded = false } })
  stop_active true now w =
      if w.risk.stop_event_recorded
      then (ok true, w)
      else (do
        set_risk (λ r. record r { stop_event_recorded = true })
        record_event now RiskEvent.stop_halt
        pure true)
          w

  unfoldable pub halted : Config F → Bool → F → Exec (World F) (Option Rejection)
  halted config stop now = do
    stopped ← stop_active stop now
    failures ← gets (λ w. w.risk.consecutive_failures)
    pure (
        if stopped
        then some Rejection.stop_file_present
        else if leb config.risk.consecutive_failure_halt failures
        then some Rejection.failure_halt
        else none)
