-- ===== src/Engine/Steps.antt =====
-- What the steps of a tick keep, the whole tick keeps.
use i_am_not_a_trader_bot.Prelude.{
  String, Bool, true, false, ◌≡◌, refl, Option, none, some, List, [], ◌∷◌, if◌then◌else◌,
}
use i_am_not_a_trader_bot.Prelude.Result.{Result, ok, err}
use i_am_not_a_trader_bot.Prelude.Py.{Exec, pure, lift, continue, ◌>>=◌, ◌>>◌}
use i_am_not_a_trader_bot.Prelude.Keeps.{Keeps, Keeps->>=}
use i_am_not_a_trader_bot.Float.{Float}
use i_am_not_a_trader_bot.Signals.{FeatureSnapshot}
use i_am_not_a_trader_bot.Config.{Config, Variant, get, active_variants}
use i_am_not_a_trader_bot.Rulesets.{Action, Decision, evaluate, skip_outside_window}
use i_am_not_a_trader_bot.Ledger.{Calendar, SkipReason, by_ruleset, risk_rejected}
use i_am_not_a_trader_bot.Risk.{
  World, Verdict, Approved, approved, rejected, check, halted, record_failure, record_success,
  on_ledger,
}
use i_am_not_a_trader_bot.Engine.{
  Tick, TickStatus, parked, no_market, tick_ok, tick_error, Execute, record_eval, outside_window,
  act_on, follow_decision, evaluate_windowed, evaluate_variant, evaluate_all, tick_body,
  settle_tick, run_unparked, is_stop, run_once,
}

module _ {F : Type 0} ⦃fl : Float F⦄ ⦃cal : Calendar F⦄ (execute : Execute F) (config : Config F)
    (tick : Tick F) where
  -- A relation between worlds that every step of the tick keeps. The executor is only called with
  -- what `check` approves.
  pub record IsKept (R : World F → World F → Type 0) : Type 0 where
    pub stays : (w : World F) → R w w
    pub chains : (u v w : World F) → R u v → R v w → R u w
    pub logs :
        (snap : FeatureSnapshot F) (v : String) (decision : Action) (why : Option SkipReason)
        → Keeps R (record_eval tick.now snap v decision why)
    pub checks :
        (variant : Variant F) (decision : Decision F) (snap : FeatureSnapshot F)
        → Keeps R (check config (tick.stop_for variant.id) variant decision snap tick.now none)
    pub executes :
        (variant : Variant F) (decision : Decision F) (snap : FeatureSnapshot F) (w : World F)
        (a : Approved F)
        → (check config (tick.stop_for variant.id) variant decision snap tick.now none w).0
          ≡ ok (approved a)
        → Keeps R (on_ledger (execute tick.clock a snap))
    pub halts : Keeps R (halted config tick.stop tick.now)
    pub fails : Keeps R (record_failure config tick.now)
    pub succeeds : Keeps R record_success

  module _ (R : World F → World F → Type 0) (kept : IsKept R) where
    open kept use {stays, chains, logs, checks, executes, halts, fails, succeeds}

    chain :
        {A B : Type 0} (m : Exec (World F) A) (f : A → Exec (World F) B)
        → Keeps R m
        → ((a : A) → Keeps R (f a))
        → Keeps R (m >>= f)
    chain m f = Keeps->>= R m f chains

    logged-Keeps :
        (snap : FeatureSnapshot F) (v : String) (decision : Action) (why : Option SkipReason)
        → Keeps R (do record_eval tick.now snap v decision why; pure tt)
    logged-Keeps snap v decision why =
        chain (record_eval tick.now snap v decision why) (λ _. pure tt) (logs snap v decision why)
          (λ _ w. stays w)

    -- A verdict that `check` has given in the world `w`.
    act_on-Keeps :
        (variant : Variant F) (decision : Decision F) (snap : FeatureSnapshot F) (w : World F)
        (verdict : Verdict F)
        → (check config (tick.stop_for variant.id) variant decision snap tick.now none w).0
          ≡ ok verdict
        → Keeps R (act_on execute config tick variant snap verdict)
    act_on-Keeps variant decision snap w (rejected r) given =
        logged-Keeps snap variant.id Action.enter (some (risk_rejected r.reason))
    act_on-Keeps variant decision snap w (approved a) given =
        chain (record_eval tick.now snap variant.id Action.enter none) _
          (logs snap variant.id Action.enter none)
          (λ _.
            chain (on_ledger (execute tick.clock a snap)) (λ _. pure tt)
              (executes variant decision snap w a given) (λ _ u. stays u))

    checked-Keeps :
        (variant : Variant F) (decision : Decision F) (snap : FeatureSnapshot F) (w u : World F)
        (r : Result (Verdict F))
        → (check config (tick.stop_for variant.id) variant decision snap tick.now none w).0 ≡ r
        → R w u
        → R w (continue r (act_on execute config tick variant snap) u).1
    checked-Keeps variant decision snap w u (err e) given h = h
    checked-Keeps variant decision snap w u (ok verdict) given h =
        chains w u _ h (act_on-Keeps variant decision snap w verdict given u)

    follow_decision-Keeps :
        (variant : Variant F) (snap : FeatureSnapshot F) (decision : Decision F) (action : Action)
        → Keeps R (follow_decision execute config tick variant snap decision action)
    follow_decision-Keeps variant snap decision Action.skip w =
        logged-Keeps snap variant.id Action.skip (some (by_ruleset decision.reason)) w
    follow_decision-Keeps variant snap decision Action.enter w =
        let after = check config (tick.stop_for variant.id) variant decision snap tick.now none w in
        checked-Keeps variant decision snap w after.1 after.0 refl (checks variant decision snap w)

    evaluate_variant-Keeps :
        (variant : Variant F) (snap : FeatureSnapshot F)
        → Keeps R (evaluate_variant execute config tick variant snap)
    unfolding evaluate_variant
    evaluate_variant-Keeps variant snap = windowed (
        outside_window (get "entry_window_sec_min" variant.params)
          (get "entry_window_sec_max" variant.params) snap.seconds_to_close)
      where
        windowed :
            (outside : Bool) → Keeps R (evaluate_windowed execute config tick variant snap outside)
        windowed true =
            logged-Keeps snap variant.id Action.skip (some (by_ruleset skip_outside_window))
        windowed false =
            chain (lift (evaluate variant snap)) _ (λ w. stays w)
              (λ d. follow_decision-Keeps variant snap d d.action)

    evaluate_all-Keeps :
        (vs : List (Variant F)) (snap : FeatureSnapshot F)
        → Keeps R (evaluate_all execute config tick vs snap)
    unfolding evaluate_all
    evaluate_all-Keeps [] snap = λ w. stays w
    evaluate_all-Keeps (v ∷ vs) snap =
        chain (evaluate_variant execute config tick v snap)
          (λ _. evaluate_all execute config tick vs snap) (evaluate_variant-Keeps v snap)
          (λ _. evaluate_all-Keeps vs snap)

    tick_body-Keeps :
        (seen : Option (FeatureSnapshot F)) → Keeps R (tick_body execute config tick seen)
    tick_body-Keeps none = λ w. stays w
    tick_body-Keeps (some snap) =
        chain (evaluate_all execute config tick (active_variants config) snap) (λ _. pure tick_ok)
          (evaluate_all-Keeps (active_variants config) snap) (λ _ w. stays w)

    settled-Keeps :
        (r : Result TickStatus) (w u : World F)
        → R w u
        → R w (settle_tick execute config tick (r, u)).1
    settled-Keeps (ok no_market) w u h = h
    settled-Keeps (ok parked) w u h = h
    settled-Keeps (ok tick_error) w u h = h
    settled-Keeps (ok tick_ok) w u h =
        chains w u _ h (chain record_success (λ _. pure tick_ok) succeeds (λ _ v. stays v) u)
    settled-Keeps (err e) w u h =
        chains w u _ h
          (chain (record_failure config tick.now) (λ _. pure tick_error) fails (λ _ v. stays v) u)

    run_unparked-Keeps : Keeps R (run_unparked execute config tick)
    run_unparked-Keeps w =
        settled-Keeps _ w _ (
          chain (lift tick.market) (tick_body execute config tick) (λ v. stays v) tick_body-Keeps w)

    pub run_once-Keeps : Keeps R (run_once execute config tick)
    unfolding run_once
    run_once-Keeps =
        chain (halted config tick.stop tick.now) _ halts
          (λ halt. parking (is_stop execute config tick halt))
      where
        parking :
            (stops : Bool)
            → Keeps R (if stops then pure parked else run_unparked execute config tick)
        parking true = λ w. stays w
        parking false = run_unparked-Keeps
