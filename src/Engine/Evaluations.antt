-- ===== src/Engine/Evaluations.antt =====
-- What a tick appends to the evaluations.
use i_am_not_a_trader_bot.Prelude.Py.{lift, pure, continue, Exec, ◌>>◌, ◌>>=◌}
use i_am_not_a_trader_bot.Engine.{
  is_stop, TickStatus, tick_body, settle_tick, run_unparked, parked, outside_window,
  follow_decision, evaluate_windowed, act_on, evaluate_variant, evaluate_all, run_once, record_eval,
  Tick, Execute, tick_ok,
}
use i_am_not_a_trader_bot.Risk.{
  halted, check, record_failure, record_success, Verdict, on_ledger, Approved, World, approved,
  rejected,
}
use i_am_not_a_trader_bot.Prelude.Result.{Result, err, ok}
use i_am_not_a_trader_bot.Prelude.{
  arith, sym, Option, Bool, ap, ◌≡◌, map, String, List, ◌++◌, if◌then◌else◌, ◌∷◌, [], some, none,
  false, true, refl,
}
use mathlib.Core.List.{append_assoc, append-nil}
use i_am_not_a_trader_bot.Float.{Float}
use i_am_not_a_trader_bot.Ledger.{
  Rejection, by_ruleset, risk_rejected, SkipReason, record_evaluation, Calendar, EvaluationRow,
  Ledger,
}
use i_am_not_a_trader_bot.Risk.Effects.{halted-IsQuiet, check-IsQuiet, IsQuiet}
use i_am_not_a_trader_bot.Signals.{FeatureSnapshot}
use i_am_not_a_trader_bot.Config.{get, active_variants, Variant, Config}
use i_am_not_a_trader_bot.Rulesets.{evaluate, skip_outside_window, Decision, Action}

module _ {F : Type 0} where
  -- The rows appended to the evaluations are those of the variants with these ids, in order.
  abbrev pub Logged : List String → Ledger F → Ledger F → Type 0
  Logged ids l l' =
      (rows : List (EvaluationRow F)) × (l'.evaluations ≡ l.evaluations ++ rows)
      × (map (λ (r : EvaluationRow F). r.variant_id) rows ≡ ids)

  map-append :
      (xs ys : List (EvaluationRow F))
      → map (λ (r : EvaluationRow F). r.variant_id) (xs ++ ys)
        ≡ map (λ (r : EvaluationRow F). r.variant_id) xs
          ++ map (λ (r : EvaluationRow F). r.variant_id) ys
  map-append [] ys = refl
  map-append (x ∷ xs) ys = ap (λ t. x.variant_id ∷ t) (map-append xs ys)

  Logged-trans :
      (us vs : List String) (k l m : Ledger F)
      → Logged us k l
      → Logged vs l m
      → Logged (us ++ vs) k m
  Logged-trans us vs k l m (xs, p, a) (ys, q, b) =
      (xs ++ ys, rw (q, p) (append_assoc k.evaluations xs ys), rw (map-append xs ys, a, b) refl)

  -- A call that returns has logged the variants with these ids.
  abbrev pub Logs : List String → {A : Type 0} → Exec (World F) A → Type 0
  Logs ids {A} m = (w : World F) (a : A) → (m w).0 ≡ ok a → Logged ids w.ledger (m w).1.ledger

  Logs->>= :
      (us vs : List String) {A B : Type 0} (m : Exec (World F) A) (f : A → Exec (World F) B)
      → Logs us m
      → ((a : A) → Logs vs (f a))
      → Logs (us ++ vs) (m >>= f)
  Logs->>= us vs m f first step w b h = by_result (m w).0 refl h
    where
      by_result :
          (r : Result _)
          → (m w).0 ≡ r
          → (continue r f (m w).1).0 ≡ ok b
          → Logged (us ++ vs) w.ledger (continue r f (m w).1).1.ledger
      by_result (err e) er k = absurd (ground arith)
      by_result (ok a) er k =
          Logged-trans us vs w.ledger (m w).1.ledger (f a (m w).1).1.ledger (first w a er)
            (step a (m w).1 b k)

  IsQuiet-Logged : (w w' : World F) → IsQuiet w w' → Logged [] w.ledger w'.ledger
  IsQuiet-Logged w w' (events, same, _) = rw same ([], rw append-nil, refl)

  nothing-Logged : (l : Ledger F) → Logged [] l l
  nothing-Logged l = ([], rw append-nil, refl)

  -- An executor that leaves the evaluations alone.
  abbrev pub LeavesEvaluations : Execute F → Type 0
  LeavesEvaluations execute =
      (clock : F) (a : Approved F) (snap : FeatureSnapshot F) (l : Ledger F)
      → (execute clock a snap l).1.evaluations ≡ l.evaluations

module _ {F : Type 0} ⦃fl : Float F⦄ ⦃cal : Calendar F⦄ (execute : Execute F)
    (leaves : LeavesEvaluations execute) (config : Config F) (tick : Tick F) where
  row-Logs :
      (snap : FeatureSnapshot F) (v : String) (decision : Action) (why : Option SkipReason)
      → Logs (v ∷ []) (record_eval tick.now snap v decision why)
  unfolding record_eval record_evaluation
  row-Logs snap v decision why w a h = (_, refl, refl)

  pure-Logs : Logs {F = F} [] {A = Unit {0}} (pure tt)
  pure-Logs w a h = nothing-Logged w.ledger

  execute-Logs :
      (a : Approved F) (snap : FeatureSnapshot F) → Logs [] (on_ledger (execute tick.clock a snap))
  execute-Logs a snap w k h =
      ([], rw (leaves tick.clock a snap w.ledger) (sym (append-nil w.ledger.evaluations)), refl)

  logged_skip-Logs :
      (snap : FeatureSnapshot F) (v : String) (decision : Action) (why : Option SkipReason)
      → Logs (v ∷ []) (do record_eval tick.now snap v decision why; pure tt)
  logged_skip-Logs snap v decision why =
      Logs->>= (v ∷ []) [] (record_eval tick.now snap v decision why) (λ _. pure tt)
        (row-Logs snap v decision why) (λ _. pure-Logs)

  act_on-Logs :
      (variant : Variant F) (snap : FeatureSnapshot F) (verdict : Verdict F)
      → Logs (variant.id ∷ []) (act_on execute config tick variant snap verdict)
  act_on-Logs variant snap (rejected r) =
      logged_skip-Logs snap variant.id Action.enter (some (risk_rejected r.reason))
  act_on-Logs variant snap (approved a) =
      Logs->>= (variant.id ∷ []) [] (record_eval tick.now snap variant.id Action.enter none) _
        (row-Logs snap variant.id Action.enter none)
        (λ _.
          Logs->>= [] [] (on_ledger (execute tick.clock a snap)) (λ _. pure tt)
            (execute-Logs a snap) (λ _. pure-Logs))

  follow_decision-Logs :
      (variant : Variant F) (snap : FeatureSnapshot F) (decision : Decision F) (action : Action)
      → Logs (variant.id ∷ []) (follow_decision execute config tick variant snap decision action)
  follow_decision-Logs variant snap decision Action.skip =
      logged_skip-Logs snap variant.id Action.skip (some (by_ruleset decision.reason))
  follow_decision-Logs variant snap decision Action.enter =
      Logs->>= [] (variant.id ∷ [])
        (check config (tick.stop_for variant.id) variant decision snap tick.now none)
        (act_on execute config tick variant snap)
        (λ w a h.
          IsQuiet-Logged w
            (check config (tick.stop_for variant.id) variant decision snap tick.now none w).1
            (check-IsQuiet config (tick.stop_for variant.id) variant decision snap tick.now none w))
        (act_on-Logs variant snap)

  evaluate_variant-Logs :
      (variant : Variant F) (snap : FeatureSnapshot F)
      → Logs (variant.id ∷ []) (evaluate_variant execute config tick variant snap)
  unfolding evaluate_variant
  evaluate_variant-Logs variant snap = windowed (
      outside_window (get "entry_window_sec_min" variant.params)
        (get "entry_window_sec_max" variant.params) snap.seconds_to_close)
    where
      windowed :
          (outside : Bool)
          → Logs (variant.id ∷ []) (evaluate_windowed execute config tick variant snap outside)
      windowed true =
          logged_skip-Logs snap variant.id Action.skip (some (by_ruleset skip_outside_window))
      windowed false =
          Logs->>= [] (variant.id ∷ []) (lift (evaluate variant snap)) _
            (λ w a h. nothing-Logged w.ledger) (λ d. follow_decision-Logs variant snap d d.action)

  abbrev pub ids : List (Variant F) → List String
  ids vs = map (λ (v : Variant F). v.id) vs

  evaluate_all-Logs :
      (vs : List (Variant F)) (snap : FeatureSnapshot F)
      → Logs (map (λ (v : Variant F). v.id) vs) (evaluate_all execute config tick vs snap)
  unfolding evaluate_all
  evaluate_all-Logs [] snap = pure-Logs
  evaluate_all-Logs (v ∷ vs) snap =
      Logs->>= (v.id ∷ []) (map (λ (u : Variant F). u.id) vs)
        (evaluate_variant execute config tick v snap)
        (λ _. evaluate_all execute config tick vs snap) (evaluate_variant-Logs v snap)
        (λ _. evaluate_all-Logs vs snap)

  abbrev active_ids : List String
  active_ids = map (λ (v : Variant F). v.id) (active_variants config)

  settled :
      (snap : FeatureSnapshot F) (w : World F) (r : Result (Unit {0}))
      → (evaluate_all execute config tick (active_variants config) snap w).0 ≡ r
      → let after = settle_tick execute config tick (
          continue r
            (λ _. pure tick_ok)
            (evaluate_all execute config tick (active_variants config) snap w).1) in
        after.0 ≡ ok tick_ok → Logged active_ids w.ledger after.1.ledger
  unfolding record_success record_failure
  settled snap w (err e) er h = absurd (ground arith)
  settled snap w (ok tt) er h = evaluate_all-Logs (active_variants config) snap w tt er

  run_unparked-Logs :
      (w : World F)
      → (run_unparked execute config tick w).0 ≡ ok tick_ok
      → Logged active_ids w.ledger (run_unparked execute config tick w).1.ledger
  unfolding record_success record_failure
  run_unparked-Logs w h = by_market tick.market refl h
    where
      by_market :
          (m : Result (Option (FeatureSnapshot F)))
          → tick.market ≡ m
          → let after =
              settle_tick execute config tick (continue m (tick_body execute config tick) w) in
            after.0 ≡ ok tick_ok → Logged active_ids w.ledger after.1.ledger
      by_market (err e) em k = absurd (ground arith)
      by_market (ok none) em k = absurd (ground arith)
      by_market (ok (some snap)) em k =
          settled snap w (evaluate_all execute config tick (active_variants config) snap w).0 refl k

  unless : Bool → Exec (World F) TickStatus
  unless stops = if stops then pure parked else run_unparked execute config tick

  unless-Logs :
      (stops : Bool) (w : World F)
      → (unless stops w).0 ≡ ok tick_ok
      → Logged active_ids w.ledger (unless stops w).1.ledger
  unfolding unless
  unless-Logs true w h = absurd (ground arith)
  unless-Logs false w h = run_unparked-Logs w h

  after_halt :
      (halt : Result (Option Rejection)) (u w : World F)
      → Logged [] u.ledger w.ledger
      → (continue halt (λ h. unless (is_stop execute config tick h)) w).0 ≡ ok tick_ok
      → Logged active_ids u.ledger
          (continue halt (λ h. unless (is_stop execute config tick h)) w).1.ledger
  after_halt (err e) u w quiet h = absurd (ground arith)
  after_halt (ok halt) u w quiet h =
      Logged-trans [] active_ids u.ledger w.ledger
        (unless (is_stop execute config tick halt) w).1.ledger quiet
        (unless-Logs (is_stop execute config tick halt) w h)

  -- Complete logging: a tick whose status is ok has appended exactly one evaluation for each active
  -- variant, in the configuration's order, if the executor leaves the evaluations alone.
  pub run_once-Logs :
      (w : World F)
      → (run_once execute config tick w).0 ≡ ok tick_ok
      → Logged
          (map (λ (v : Variant F). v.id) (active_variants config))
          w.ledger
          (run_once execute config tick w).1.ledger
  unfolding run_once unless
  run_once-Logs w h =
      after_halt (halted config tick.stop tick.now w).0 w (halted config tick.stop tick.now w).1
        (IsQuiet-Logged w (halted config tick.stop tick.now w).1
          (halted-IsQuiet config tick.stop tick.now w))
        h
