-- ===== src/Engine/Failures.antt =====
-- A tick survives every exception, and feeds the failure count.
use i_am_not_a_trader_bot.Prelude.{
  ℕ, ◌+◌, String, Bool, true, false, ◌≡◌, refl, ◌∙◌, subst, inl, inr, Option, none, some, List, [],
  ◌∷◌, Bool-cases, if◌then◌else◌, leb, not, ◌&&◌,
}
use i_am_not_a_trader_bot.Prelude.Result.{Result, ok, err}
use i_am_not_a_trader_bot.Prelude.Py.{Exec, pure, lift, continue, ◌>>=◌, ◌>>◌}
use i_am_not_a_trader_bot.Prelude.Keeps.{Keeps, Keeps->>=}
use i_am_not_a_trader_bot.Float.{Float}
use i_am_not_a_trader_bot.Signals.{FeatureSnapshot}
use i_am_not_a_trader_bot.Config.{Config, Variant, get, active_variants}
use i_am_not_a_trader_bot.Rulesets.{Action, Decision, evaluate, skip_outside_window}
use i_am_not_a_trader_bot.Ledger.{Calendar, SkipReason, by_ruleset, risk_rejected}
use i_am_not_a_trader_bot.Risk.{
  World, Verdict, approved, rejected, check, record_failure, record_success, on_ledger, stop_active,
}
use i_am_not_a_trader_bot.Risk.Effects.{check-IsQuiet, halted-IsQuiet, halted-eq}
use i_am_not_a_trader_bot.Engine.{
  Tick, TickStatus, parked, no_market, tick_ok, tick_error, Execute, record_eval, outside_window,
  act_on, follow_decision, evaluate_windowed, evaluate_variant, evaluate_all, tick_body,
  settle_tick, run_unparked, is_stop, run_once,
}

abbrev pub failures : {F : Type 0} → World F → ℕ
failures w = w.risk.consecutive_failures

-- What a tick does to the failure count, by its status.
abbrev pub Counts : TickStatus → ℕ → ℕ → Type 0
Counts parked before after = after ≡ before
Counts no_market before after = after ≡ before
Counts tick_ok before after = after ≡ 0
Counts tick_error before after = after ≡ before + 1

module _ {F : Type 0} where
  -- A call that returned a status and did this to the failure count.
  abbrev pub Survives : World F → Result TickStatus × World F → Type 0
  Survives w after =
      (status : TickStatus) × (after.0 ≡ ok status) × Counts status (failures w) (failures after.1)

  abbrev SameFailures : World F → World F → Type 0
  SameFailures w w' = failures w' ≡ failures w

  abbrev KeepsFailures : {A : Type 0} → Exec (World F) A → Type 0
  KeepsFailures m = Keeps SameFailures m

  bind-KeepsFailures :
      {A B : Type 0} (m : Exec (World F) A) (f : A → Exec (World F) B)
      → KeepsFailures m
      → ((a : A) → KeepsFailures (f a))
      → KeepsFailures (m >>= f)
  bind-KeepsFailures m f = Keeps->>= SameFailures m f (λ s t u p q. q ∙ p)

module _ {F : Type 0} ⦃fl : Float F⦄ ⦃cal : Calendar F⦄ (execute : Execute F) (config : Config F)
    (tick : Tick F) where
  row-KeepsFailures :
      (snap : FeatureSnapshot F) (v : String) (decision : Action) (why : Option SkipReason)
      → KeepsFailures (do record_eval tick.now snap v decision why; pure tt)
  unfolding record_eval
  row-KeepsFailures snap v decision why =
      bind-KeepsFailures (record_eval tick.now snap v decision why) (λ _. pure tt) (λ w. refl)
        (λ _ w. refl)

  act_on-KeepsFailures :
      (variant : Variant F) (snap : FeatureSnapshot F) (verdict : Verdict F)
      → KeepsFailures (act_on execute config tick variant snap verdict)
  unfolding record_eval
  act_on-KeepsFailures variant snap (rejected r) =
      row-KeepsFailures snap variant.id Action.enter (some (risk_rejected r.reason))
  act_on-KeepsFailures variant snap (approved a) =
      bind-KeepsFailures (record_eval tick.now snap variant.id Action.enter none) _ (λ w. refl)
        (λ _.
          bind-KeepsFailures (on_ledger (execute tick.clock a snap)) (λ _. pure tt) (λ w. refl)
            (λ _ w. refl))

  follow_decision-KeepsFailures :
      (variant : Variant F) (snap : FeatureSnapshot F) (decision : Decision F) (action : Action)
      → KeepsFailures (follow_decision execute config tick variant snap decision action)
  follow_decision-KeepsFailures variant snap decision Action.skip =
      row-KeepsFailures snap variant.id Action.skip (some (by_ruleset decision.reason))
  follow_decision-KeepsFailures variant snap decision Action.enter =
      bind-KeepsFailures
        (check config (tick.stop_for variant.id) variant decision snap tick.now none)
        (act_on execute config tick variant snap)
        (λ w.
          (check-IsQuiet config (tick.stop_for variant.id) variant decision snap tick.now none w).2)
        (act_on-KeepsFailures variant snap)

  evaluate_variant-KeepsFailures :
      (variant : Variant F) (snap : FeatureSnapshot F)
      → KeepsFailures (evaluate_variant execute config tick variant snap)
  unfolding evaluate_variant
  evaluate_variant-KeepsFailures variant snap = windowed (
      outside_window (get "entry_window_sec_min" variant.params)
        (get "entry_window_sec_max" variant.params) snap.seconds_to_close)
    where
      windowed :
          (outside : Bool)
          → KeepsFailures (evaluate_windowed execute config tick variant snap outside)
      windowed true =
          row-KeepsFailures snap variant.id Action.skip (some (by_ruleset skip_outside_window))
      windowed false =
          bind-KeepsFailures (lift (evaluate variant snap)) _ (λ w. refl)
            (λ d. follow_decision-KeepsFailures variant snap d d.action)

  evaluate_all-KeepsFailures :
      (vs : List (Variant F)) (snap : FeatureSnapshot F)
      → KeepsFailures (evaluate_all execute config tick vs snap)
  unfolding evaluate_all
  evaluate_all-KeepsFailures [] snap = λ w. refl
  evaluate_all-KeepsFailures (v ∷ vs) snap =
      bind-KeepsFailures (evaluate_variant execute config tick v snap)
        (λ _. evaluate_all execute config tick vs snap) (evaluate_variant-KeepsFailures v snap)
        (λ _. evaluate_all-KeepsFailures vs snap)

  record_failure-Counts :
      (w : World F)
      → ((record_failure config tick.now w).0 ≡ ok tt)
        × (failures (record_failure config tick.now w).1 ≡ failures w + 1)
  unfolding record_failure
  record_failure-Counts w =
      elim (Bool-cases (
        leb config.risk.consecutive_failure_halt (w.risk.consecutive_failures + 1)
        && not w.risk.failure_event_recorded)) [
          | inl halts ↦ rw halts (refl, refl)
          | inr goes_on ↦ rw goes_on (refl, refl)
        ]

  failed-Survives :
      (w w' : World F)
      → failures w' ≡ failures w
      → Survives w ((do record_failure config tick.now; pure tick_error) w')
  failed-Survives w w' same =
      let (returned, counted) = record_failure-Counts w' in
      rw returned (tick_error, refl, rw (counted, same) refl)

  evaluated-Survives :
      (snap : FeatureSnapshot F) (w w' : World F) (r : Result (Unit {0}))
      → failures w' ≡ failures w
      → Survives w (settle_tick execute config tick (continue r (λ _. pure tick_ok) w'))
  unfolding record_success
  evaluated-Survives snap w w' (err e) same = failed-Survives w w' same
  evaluated-Survives snap w w' (ok tt) same = (tick_ok, refl, refl)

  run_unparked-Survives : (w : World F) → Survives w (run_unparked execute config tick w)
  run_unparked-Survives w = by_market tick.market
    where
      by_market :
          (m : Result (Option (FeatureSnapshot F)))
          → Survives w
              (settle_tick execute config tick (continue m (tick_body execute config tick) w))
      by_market (err e) = failed-Survives w w refl
      by_market (ok none) = (no_market, refl, refl)
      by_market (ok (some snap)) =
          evaluated-Survives snap w
            (evaluate_all execute config tick (active_variants config) snap w).1
            (evaluate_all execute config tick (active_variants config) snap w).0
            (evaluate_all-KeepsFailures (active_variants config) snap w)

  -- Whatever the market state, a rule-set, the risk manager, the ledger or the executor raises, a
  -- tick returns a status. An error adds one to the count of consecutive failures, a clean tick
  -- resets it, and a tick that is parked or finds no market leaves it.
  pub run_once-Survives : (w : World F) → Survives w (run_once execute config tick w)
  unfolding run_once
  run_once-Survives w = rw halted-eq (
      decided (is_stop execute config tick _) (stop_active tick.stop tick.now w).1
        (rw halted-eq at (halted-IsQuiet config tick.stop tick.now w).2))
    where
      decided :
          (stops : Bool) (u : World F)
          → failures u ≡ failures w
          → Survives w ((if stops then pure parked else run_unparked execute config tick) u)
      decided true u same = (parked, refl, same)
      decided false u same =
          let (status, returned, counted) = run_unparked-Survives u in
          let after = failures (run_unparked execute config tick u).1 in
          (status, returned, subst (λ n. Counts status n after) same counted)
