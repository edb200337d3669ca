-- ===== src/Risk/Effects.antt =====
-- What `check` may write: risk events, and the risk manager's own fields.
use mathlib.Core.List.{[], List, ◌++◌, append-nil, append_assoc}
use i_am_not_a_trader_bot.Risk.State.{halted, World, stop_active}
use i_am_not_a_trader_bot.Risk.Manager.{
  check_guarded, check_act, market_guards, check_first, mode_of, issue, check_unhalted, check_sided,
  check_enter, check_entry, size, check, same_day, loss_cap, check_daily_caps,
}
use i_am_not_a_trader_bot.Float.{◌≼◌, Float}
use i_am_not_a_trader_bot.Ledger.{
  Rejection, Mode, live_realized_pnl_on_day, RiskRow, record_risk_event,
}
use i_am_not_a_trader_bot.Ledger.{Calendar}
use i_am_not_a_trader_bot.Prelude.{
  arith, leb, ◌∙◌, Option, if◌then◌else◌, some, none, false, true, refl, inr, inl, Bool-cases, ◌≡◌,
  Bool,
}
use i_am_not_a_trader_bot.Config.{Variant, Config}
use i_am_not_a_trader_bot.Prelude.Result.{Result, err, ok, Result-cases}
use i_am_not_a_trader_bot.Risk.Sizing.{stake, refusal, Stake, approve}
use i_am_not_a_trader_bot.Signals.{Side, FeatureSnapshot}
use i_am_not_a_trader_bot.Rulesets.{Action, Decision}
use i_am_not_a_trader_bot.Prelude.Py.{Exec, continue}

module _ {F : Type 0} where
  -- Only risk events were appended to the ledger, and the failure count is as it was.
  abbrev pub IsQuiet : World F → World F → Type 0
  IsQuiet w w' =
      (events : List (RiskRow F)) × (w'.ledger
        ≡ record (w.ledger) { risk_events = w.ledger.risk_events ++ events })
      × (w'.risk.consecutive_failures ≡ w.risk.consecutive_failures)

  pub IsQuiet-refl : (w : World F) → IsQuiet w w
  IsQuiet-refl w = ([], rw append-nil, refl)

  pub IsQuiet-trans : (u v w : World F) → IsQuiet u v → IsQuiet v w → IsQuiet u w
  IsQuiet-trans u v w (es, p, a) (fs, q, b) = (es ++ fs, rw (q, p) (rw append_assoc), b ∙ a)

  IsQuiet-then :
      {A : Type 0} (u v : World F) (m : Exec (World F) A)
      → IsQuiet u v
      → IsQuiet v (m v).1
      → IsQuiet u (m v).1
  IsQuiet-then u v m p q = IsQuiet-trans u v (m v).1 p q

  stop_active-IsQuiet : (stop : Bool) (now : F) (w : World F) → IsQuiet w (stop_active stop now w).1
  unfolding stop_active record_risk_event
  stop_active-IsQuiet false now w = ([], rw append-nil, refl)
  stop_active-IsQuiet true now w = elim (Bool-cases (w.risk.stop_event_recorded)) [
    | inl seen ↦ rw seen (IsQuiet-refl w)
    | inr unseen ↦ rw unseen (_, refl, refl)
  ]

module _ {F : Type 0} ⦃fl : Float F⦄ ⦃cal : Calendar F⦄ where
  check_daily_caps-IsQuiet :
      (config : Config F) (now : F) (w : World F) → IsQuiet w (check_daily_caps config now w).1
  unfolding check_daily_caps record_risk_event
  check_daily_caps-IsQuiet config now w =
      elim (Result-cases (live_realized_pnl_on_day (cal.operator_day now) w.ledger)) [
        | inr (e, failed) ↦ rw failed (IsQuiet-refl w)
        | inl (realized, known) ↦
            rw known (elim (Bool-cases (realized ≼ fl.neg (loss_cap config))) [
              | inr above ↦ rw above (IsQuiet-refl w)
              | inl capped ↦
                  rw capped
                    (elim (Bool-cases (same_day w.risk.loss_halt_day (cal.operator_day now))) [
                      | inl seen ↦ rw seen (IsQuiet-refl w)
                      | inr unseen ↦ rw unseen (_, refl, refl)
                    ])
            ])
      ]

  size-IsQuiet :
      (config : Config F) (variant : Variant F) (mode : Mode) (price : F) (win_prob : Option F)
      (now : F) (w : World F)
      → IsQuiet w (size config variant mode price win_prob now w).1
  unfolding size
  size-IsQuiet config variant Mode.shadow price win_prob now w = IsQuiet-refl w
  size-IsQuiet config variant Mode.live price win_prob now w =
      caps ((check_daily_caps config now w).0) refl
    where
      caps :
          (r : Result (Option Rejection))
          → (check_daily_caps config now w).0 ≡ r
          → IsQuiet w (size config variant Mode.live price win_prob now w).1
      caps (err e) er = rw er (check_daily_caps-IsQuiet config now w)
      caps (ok (some reason)) er = rw er (check_daily_caps-IsQuiet config now w)
      caps (ok none) er = rw er (check_daily_caps-IsQuiet config now w)

  issue-same :
      (variant : Variant F) (snap : FeatureSnapshot F) (side : Side) (price : F) (amount : Stake F)
      (w : World F)
      → (issue variant snap side price amount w).1 ≡ w
  unfolding approve
  issue-same variant snap side price (refusal reason) w = refl
  issue-same variant snap side price (stake amount) w = ground arith

  check_entry-IsQuiet :
      (config : Config F) (variant : Variant F) (side : Side) (price : F) (snap : FeatureSnapshot F)
      (now : F) (win_prob : Option F) (w : World F)
      → IsQuiet w (check_entry config variant side price snap now win_prob w).1
  unfolding check_entry
  check_entry-IsQuiet config variant side price snap now win_prob w =
      guarded (market_guards config.risk side snap)
    where
      sized :
          (r : Result (Stake F))
          → IsQuiet w
              (continue r
                (issue variant snap side price)
                (size config variant (mode_of variant.status) price win_prob now w).1).1
      sized (err e) = size-IsQuiet config variant (mode_of variant.status) price win_prob now w
      sized (ok amount) =
          rw issue-same (size-IsQuiet config variant (mode_of variant.status) price win_prob now w)

      guarded :
          (g : Option Rejection)
          → IsQuiet w (check_guarded config variant side price snap now win_prob g w).1
      guarded (some reason) = IsQuiet-refl w
      guarded none = sized ((size config variant (mode_of variant.status) price win_prob now w).0)

  check_sided-IsQuiet :
      (config : Config F) (variant : Variant F) (side : Option Side) (price : Option F)
      (snap : FeatureSnapshot F) (now : F) (win_prob : Option F) (w : World F)
      → IsQuiet w (check_sided config variant side price snap now win_prob w).1
  check_sided-IsQuiet config variant none price snap now win_prob w = IsQuiet-refl w
  check_sided-IsQuiet config variant (some side) none snap now win_prob w = IsQuiet-refl w
  check_sided-IsQuiet config variant (some side) (some price) snap now win_prob w =
      check_entry-IsQuiet config variant side price snap now win_prob w

  pub halted-eq :
      (config : Config F) (stop : Bool) (now : F) (w : World F)
      → halted config stop now w ≡ (
        ok (
            if stop
            then some Rejection.stop_file_present
            else if leb config.risk.consecutive_failure_halt w.risk.consecutive_failures
            then some Rejection.failure_halt
            else none),
        (stop_active stop now w).1,
      )
  unfolding halted stop_active
  halted-eq config false now w = refl
  halted-eq config true now w = ground arith

  pub halted-IsQuiet :
      (config : Config F) (stop : Bool) (now : F) (w : World F)
      → IsQuiet w (halted config stop now w).1
  halted-IsQuiet config stop now w = rw halted-eq (stop_active-IsQuiet stop now w)

  check_first-IsQuiet :
      (config : Config F) (variant : Variant F) (decision : Decision F) (snap : FeatureSnapshot F)
      (now : F) (win_prob : Option F) (again : Bool) (w : World F)
      → IsQuiet w (check_first config variant decision snap now win_prob again w).1
  check_first-IsQuiet config variant decision snap now win_prob true w = IsQuiet-refl w
  check_first-IsQuiet config variant decision snap now win_prob false w =
      check_sided-IsQuiet config variant decision.side decision.limit_price snap now win_prob w

  check_unhalted-IsQuiet :
      (config : Config F) (variant : Variant F) (decision : Decision F) (snap : FeatureSnapshot F)
      (now : F) (win_prob : Option F) (halt : Option Rejection) (w : World F)
      → IsQuiet w (check_unhalted config variant decision snap now win_prob halt w).1
  check_unhalted-IsQuiet config variant decision snap now win_prob (some reason) w = IsQuiet-refl w
  check_unhalted-IsQuiet config variant decision snap now win_prob none w =
      check_first-IsQuiet config variant decision snap now win_prob _ w

  check_enter-IsQuiet :
      (config : Config F) (stop : Bool) (variant : Variant F) (decision : Decision F)
      (snap : FeatureSnapshot F) (now : F) (win_prob : Option F) (w : World F)
      → IsQuiet w (check_enter config stop variant decision snap now win_prob w).1
  unfolding check_enter
  check_enter-IsQuiet config stop variant decision snap now win_prob w = rw halted-eq (
      IsQuiet-then w (stop_active stop now w).1
        (check_unhalted config variant decision snap now win_prob _)
        (stop_active-IsQuiet stop now w)
        (check_unhalted-IsQuiet config variant decision snap now win_prob _
          (stop_active stop now w).1))

  -- Approved, rejected or raising, `check` appends risk events to the ledger, writes nothing else
  -- there, and leaves the count of consecutive failures as it is.
  pub check-IsQuiet :
      (config : Config F) (stop : Bool) (variant : Variant F) (decision : Decision F)
      (snap : FeatureSnapshot F) (now : F) (win_prob : Option F) (w : World F)
      → IsQuiet w (check config stop variant decision snap now win_prob w).1
  unfolding check
  check-IsQuiet config stop variant decision snap now win_prob w = acts decision.action
    where
      acts :
          (action : Action)
          → IsQuiet w (check_act config stop variant decision snap now win_prob action w).1
      acts Action.skip = IsQuiet-refl w
      acts Action.enter = check_enter-IsQuiet config stop variant decision snap now win_prob w
