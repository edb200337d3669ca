-- ===== src/Risk/Halts.antt =====
-- The halts: the STOP file, the failure streak, and their risk events.
use i_am_not_a_trader_bot.Prelude.Result.{Result, ok, err}
use i_am_not_a_trader_bot.Prelude.Py.{continue}
use i_am_not_a_trader_bot.Prelude.{
  Bool-cases, inr, inl, leb, Option, arith, ◌≡◌, ℕ, count_if, count_if-append, map, List, Bool, ◌+◌,
  ◌∷◌, [], some, none, false, true, refl,
}
use i_am_not_a_trader_bot.Risk.State.{World, stop_active, halted}
use i_am_not_a_trader_bot.Risk.Manager.{
  market_guards, reject, mode_of, size, check_entry, check_enter, check, check_guarded, check_sided,
  check_first, check_unhalted, check_act,
}
use i_am_not_a_trader_bot.Ledger.{
  record_risk_event, RiskEvent, has_entry, Rejection, Mode, Calendar, RiskRow,
}
use i_am_not_a_trader_bot.Float.{Float}
use i_am_not_a_trader_bot.Config.{Variant, Config}
use i_am_not_a_trader_bot.Rulesets.{Action, enter, skip, Decision}
use i_am_not_a_trader_bot.Signals.{Side, FeatureSnapshot}
use i_am_not_a_trader_bot.Risk.Effects.{check-IsQuiet, IsQuiet, halted-eq}

-- How often the STOP file appears, over a sequence of looks after one that found `seen`.
abbrev pub appearances : Bool → List Bool → ℕ
appearances seen [] = 0
appearances seen (false ∷ looks) = appearances false looks
appearances false (true ∷ looks) = appearances true looks + 1
appearances true (true ∷ looks) = appearances true looks

module _ {F : Type 0} where
  -- `stop_active`, called once for each look.
  unfoldable pub look_all : List (Bool × F) → World F → World F
  look_all [] w = w
  look_all ((stop, now) ∷ looks) w = look_all looks (stop_active stop now w).1

  abbrev pub is_stop_event : RiskRow F → Bool
  is_stop_event r = elim r.event [ RiskEvent.stop_halt ↦ true | _ ↦ false ]

  abbrev pub stops : List (Bool × F) → List Bool
  stops looks = map (λ (look : Bool × F). look.0) looks

  -- The ledger gets one STOP event for each appearance of the file: not one for each look while it
  -- is there, and a new one when it comes back.
  pub look_all-RecordsOnce :
      (looks : List (Bool × F)) (w : World F)
      → count_if is_stop_event (look_all looks w).ledger.risk_events
        ≡ count_if is_stop_event w.ledger.risk_events
          + appearances w.risk.stop_event_recorded (stops looks)
  unfolding look_all stop_active record_risk_event
  look_all-RecordsOnce [] w = omega arith
  look_all-RecordsOnce ((false, now) ∷ looks) w =
      look_all-RecordsOnce looks
        (record w { risk = record (w.risk) { stop_event_recorded = false } })
  look_all-RecordsOnce ((true, now) ∷ looks) w = elim (Bool-cases w.risk.stop_event_recorded) [
    | inl seen ↦ rw seen (ground (arith, look_all-RecordsOnce looks w))
    | inr unseen ↦ rw unseen (
        appeared (w.ledger.risk_events) _ (count_if-append is_stop_event w.ledger.risk_events _)
          (look_all-RecordsOnce looks _))
  ]
    where
      appeared :
          (rows : List (RiskRow F)) (w' : World F)
          → count_if is_stop_event w'.ledger.risk_events ≡ count_if is_stop_event rows + 1
          → count_if is_stop_event (look_all looks w').ledger.risk_events
            ≡ count_if is_stop_event w'.ledger.risk_events
              + appearances w'.risk.stop_event_recorded (stops looks)
          → count_if is_stop_event (look_all looks w').ledger.risk_events
            ≡ count_if is_stop_event rows
              + (appearances w'.risk.stop_event_recorded (stops looks) + 1)
      appeared rows w' a b = omega arith

module _ {F : Type 0} ⦃fl : Float F⦄ ⦃cal : Calendar F⦄ where
  -- While the STOP file is there, `check` rejects every entry for that reason, live or shadow, and
  -- leaves the trades and evaluations alone.
  pub check-Stops :
      (config : Config F) (variant : Variant F) (decision : Decision F) (snap : FeatureSnapshot F)
      (now : F) (win_prob : Option F) (w : World F)
      → decision.action ≡ enter
      → let after = check config true variant decision snap now win_prob w in
        (after.0 ≡ ok (reject variant snap Rejection.stop_file_present)) × IsQuiet w after.1
  unfolding check check_enter
  check-Stops config variant decision snap now win_prob w entering = (
    rw (entering, halted-eq) (ground arith),
    check-IsQuiet config true variant decision snap now win_prob w,
  )

  -- A failure streak that has reached the threshold rejects every entry.
  pub check-FailureHalts :
      (config : Config F) (variant : Variant F) (decision : Decision F) (snap : FeatureSnapshot F)
      (now : F) (win_prob : Option F) (w : World F)
      → decision.action ≡ enter
      → leb config.risk.consecutive_failure_halt w.risk.consecutive_failures ≡ true
      → (check config false variant decision snap now win_prob w).0
        ≡ ok (reject variant snap Rejection.failure_halt)
  unfolding check check_enter stop_active
  check-FailureHalts config variant decision snap now win_prob w entering reached =
      rw (entering, halted-eq) (ground arith)

  -- What only the sizing of live entries reads.
  abbrev pub resized : Config F → F → F → F → ℕ → Config F
  resized config bankroll per_trade_max loss_cap_pct trade_cap = record config {
    bankroll_usd = bankroll;
    risk = record (config.risk) {
      per_trade_max_usd = per_trade_max;
      daily_loss_cap_pct = loss_cap_pct;
      max_live_trades_per_day = trade_cap;
    };
  }

  module _ (config : Config F) (stop : Bool) (variant : Variant F) (decision : Decision F)
      (snap : FeatureSnapshot F) (now : F) (win_prob other_prob : Option F)
      (bankroll per_trade_max loss_cap_pct : F) (trade_cap : ℕ)
      (in_shadow : mode_of variant.status ≡ Mode.shadow) where
    other : Config F
    other = resized config bankroll per_trade_max loss_cap_pct trade_cap

    guarded_in_shadow :
        (side : Side) (price : F) (refused : Option Rejection) (w : World F)
        → check_guarded other variant side price snap now other_prob refused w
          ≡ check_guarded config variant side price snap now win_prob refused w
    unfolding size other
    guarded_in_shadow side price (some reason) w = refl
    guarded_in_shadow side price none w = rw in_shadow refl

    sided_in_shadow :
        (side : Option Side) (price : Option F) (w : World F)
        → check_sided other variant side price snap now other_prob w
          ≡ check_sided config variant side price snap now win_prob w
    unfolding check_entry market_guards other
    sided_in_shadow none price w = refl
    sided_in_shadow (some side) none w = refl
    sided_in_shadow (some side) (some price) w =
        guarded_in_shadow side price (market_guards config.risk side snap) w

    first_in_shadow :
        (entered : Bool) (w : World F)
        → check_first other variant decision snap now other_prob entered w
          ≡ check_first config variant decision snap now win_prob entered w
    first_in_shadow true w = refl
    first_in_shadow false w = sided_in_shadow decision.side decision.limit_price w

    halted_in_shadow :
        (halt : Result (Option Rejection)) (w : World F)
        → continue halt (check_unhalted other variant decision snap now other_prob) w
          ≡ continue halt (check_unhalted config variant decision snap now win_prob) w
    halted_in_shadow (err e) w = refl
    halted_in_shadow (ok (some reason)) w = refl
    halted_in_shadow (ok none) w =
        first_in_shadow (has_entry snap.bucket_ts variant.id (mode_of variant.status) w.ledger) w

    act_in_shadow :
        (action : Action) (w : World F)
        → check_act other stop variant decision snap now other_prob action w
          ≡ check_act config stop variant decision snap now win_prob action w
    unfolding check_enter halted other
    act_in_shadow skip w = refl
    act_in_shadow enter w =
        halted_in_shadow (halted config stop now w).0 (halted config stop now w).1

  -- The check of a shadow variant's decision does not depend on its estimate of the edge, nor on
  -- the bankroll, the stake maximum and the daily caps of live trading: with others it returns or
  -- raises alike and leaves the same world.
  pub check_in_shadow :
      (config : Config F) (stop : Bool) (variant : Variant F) (decision : Decision F)
      (snap : FeatureSnapshot F) (now : F) (win_prob other_prob : Option F) (w : World F)
      (bankroll per_trade_max loss_cap_pct : F) (trade_cap : ℕ)
      → mode_of variant.status ≡ Mode.shadow
      → check
          (resized config bankroll per_trade_max loss_cap_pct trade_cap)
          stop
          variant
          decision
          snap
          now
          other_prob
          w
        ≡ check config stop variant decision snap now win_prob w
  unfolding check other
  check_in_shadow config stop variant decision snap now win_prob other_prob w bankroll per_trade_max
        loss_cap_pct trade_cap in_shadow =
      act_in_shadow config stop variant decision snap now win_prob other_prob bankroll per_trade_max
        loss_cap_pct trade_cap in_shadow decision.action w
