-- ===== src/Engine.antt =====
-- engine/main.py: the tick (poll, evaluate, risk, execute, ledger), its cadence, and the start.
pub mod Sound
pub mod Gates
pub mod Steps
pub mod Failures
pub mod Evaluations
use i_am_not_a_trader_bot.Prelude.Result.{Result, err, ok}
use i_am_not_a_trader_bot.Prelude.{
  ◌&&◌, if◌then◌else◌, not, ◌*◌, ◌+◌, List, Option, String, ℕ, Bool, ◌∷◌, [], some, none, false,
  true,
}
use i_am_not_a_trader_bot.Prelude.Py.{pure, lift, Exec, ◌>>=◌, ◌>>◌}
use i_am_not_a_trader_bot.Config.{
  active_variants, get, check_frozen, Variant, live_variants, Config,
}
use i_am_not_a_trader_bot.Float.{max, ◌⊖◌, ◌≼◌, nought, min, of_ℕ, Float}
use i_am_not_a_trader_bot.Ledger.{
  risk_rejected, record_evaluation, SkipReason, by_ruleset, Rejection, Ledger, Calendar,
}
use i_am_not_a_trader_bot.Risk.{
  rejected, on_ledger, check, approved, record_failure, halted, Verdict, record_success, Approved,
  World,
}
use i_am_not_a_trader_bot.Signals.{FeatureSnapshot, bucket_sec}
use i_am_not_a_trader_bot.Rulesets.{skip_outside_window, evaluate, Decision, Action}

-- What a tick is given from outside: the time, what each look at the STOP file finds, what the
-- market state returns or raises, and the executor's clock.
pub record Tick (F : Type 0) : Type 0 where
  pub now : F
  pub stop : Bool
  pub stop_for : String → Bool
  pub market : Result (Option (FeatureSnapshot F))
  pub clock : F

pub data TickStatus : Type 0 where
  parked no_market tick_ok tick_error : TickStatus

-- An executor, as `ExecutorProtocol`: it acts on an approval and returns the trade's id. The first
-- argument is what its clock returns.
abbrev pub Execute : Type 0 → Type 0
Execute F = F → Approved F → FeatureSnapshot F → Exec (Ledger F) ℕ

abbrev pub poll_sec : ℕ
poll_sec = 3

module _ {F : Type 0} ⦃fl : Float F⦄ ⦃cal : Calendar F⦄ where
  unfoldable pub record_eval :
      F → FeatureSnapshot F → String → Action → Option SkipReason → Exec (World F) ℕ
  record_eval now snap variant_id decision skip_reason =
      on_ledger (record_evaluation now snap.bucket_ts variant_id snap decision skip_reason)

  -- The cheap test before the dispatch: both bounds are there and the time is outside.
  abbrev pub outside_window : Option F → Option F → F → Bool
  outside_window (some lo) (some hi) t = not (lo ≼ t && t ≼ hi)
  outside_window none _ t = false
  outside_window (some lo) none t = false

  module _ (execute : Execute F) (config : Config F) (tick : Tick F) where
    abbrev pub act_on : Variant F → FeatureSnapshot F → Verdict F → Exec (World F) (Unit {0})
    act_on variant snap (approved a) = do
      record_eval tick.now snap variant.id Action.enter none
      on_ledger (execute tick.clock a snap)
      pure tt
    act_on variant snap (rejected r) = do
      record_eval tick.now snap variant.id Action.enter (some (risk_rejected r.reason))
      pure tt

    abbrev pub follow_decision :
        Variant F → FeatureSnapshot F → Decision F → Action → Exec (World F) (Unit {0})
    follow_decision variant snap decision Action.skip = do
      record_eval tick.now snap variant.id Action.skip (some (by_ruleset decision.reason))
      pure tt
    follow_decision variant snap decision Action.enter = do
      verdict ← check config (tick.stop_for variant.id) variant decision snap tick.now none
      act_on variant snap verdict

    abbrev pub evaluate_inside : Variant F → FeatureSnapshot F → Exec (World F) (Unit {0})
    evaluate_inside variant snap = do
      decision ← lift (evaluate variant snap)
      follow_decision variant snap decision decision.action

    abbrev pub evaluate_windowed : Variant F → FeatureSnapshot F → Bool → Exec (World F) (Unit {0})
    evaluate_windowed variant snap true = do
      record_eval tick.now snap variant.id Action.skip (some (by_ruleset skip_outside_window))
      pure tt
    evaluate_windowed variant snap false = evaluate_inside variant snap

    unfoldable pub evaluate_variant : Variant F → FeatureSnapshot F → Exec (World F) (Unit {0})
    evaluate_variant variant snap = evaluate_windowed variant snap (
        outside_window (get "entry_window_sec_min" variant.params)
          (get "entry_window_sec_max" variant.params) snap.seconds_to_close)

    unfoldable pub evaluate_all : List (Variant F) → FeatureSnapshot F → Exec (World F) (Unit {0})
    evaluate_all [] snap = pure tt
    evaluate_all (v ∷ vs) snap = do evaluate_variant v snap; evaluate_all vs snap

    -- The body of the `try` in `run_once`.
    abbrev pub tick_body : Option (FeatureSnapshot F) → Exec (World F) TickStatus
    tick_body none = pure no_market
    tick_body (some snap) = do evaluate_all (active_variants config) snap; pure tick_ok

    -- The `except`, and `record_success` after a clean tick.
    abbrev pub settle_tick : Result TickStatus × World F → Result TickStatus × World F
    settle_tick (ok no_market, w) = (ok no_market, w)
    settle_tick (ok parked, w) = (ok parked, w)
    settle_tick (ok tick_error, w) = (ok tick_error, w)
    settle_tick (ok tick_ok, w) = (do record_success; pure tick_ok) w
    settle_tick (err e, w) = (do record_failure config tick.now; pure tick_error) w

    abbrev pub run_unparked : Exec (World F) TickStatus
    run_unparked w = settle_tick ((do seen ← lift tick.market; tick_body seen) w)

    abbrev pub is_stop : Option Rejection → Bool
    is_stop none = false
    is_stop (some Rejection.stop_file_present) = true
    is_stop (some _) = false

    unfoldable pub run_once : Exec (World F) TickStatus
    run_once = do
      halt ← halted config tick.stop tick.now
      if is_stop halt then pure parked else run_unparked

  abbrev pub least : F → List F → F
  least x [] = x
  least x (y ∷ ys) = least (min x y) ys

  abbrev window_mins : List (Variant F) → List F
  window_mins [] = []
  window_mins (v ∷ vs) =
      elim (get "entry_window_sec_min" v.params) [ none ↦ nought | some t ↦ t ] ∷ window_mins vs

  abbrev window_start : List F → F
  window_start [] = of_ℕ bucket_sec
  window_start (x ∷ xs) = least x xs

  -- The last moment at which an active variant could still enter this bucket.
  unfoldable pub entry_window_end : Config F → ℕ → F
  entry_window_end config bucket =
      of_ℕ (bucket + bucket_sec) ⊖ window_start (window_mins (active_variants config))

  unfoldable pub seconds_until_next_tick : Config F → F → F
  seconds_until_next_tick config now =
      let bucket = fl.floor_div now bucket_sec * bucket_sec in
      if now ≼ entry_window_end config bucket
      then of_ℕ poll_sec
      else max (of_ℕ (bucket + bucket_sec) ⊖ now) (of_ℕ 1)

-- What `startup` does: it exits with status 2, or writes the snapshot and returns the config.
pub data Startup (F : Type 0) : Type 0 where
  exits : Startup F
  starts : Config F → Startup F

module _ {F : Type 0} ⦃fl : Float F⦄ where
  abbrev pub live_gate : Config F → Startup F
  live_gate config = elim (live_variants config) [ [] ↦ starts config | _ ∷ _ ↦ exits ]

  abbrev pub frozen_gate : Config F → Result (Config F) → Startup F
  frozen_gate config (err e) = exits
  frozen_gate config (ok prior) = elim (check_frozen config.variants prior.variants) [
    | err e ↦ exits
    | ok _ ↦ live_gate config
  ]

  -- `loaded` is `load_config` of the configuration, `prior` that of the snapshot, if there is one.
  unfoldable pub startup : Result (Config F) → Option (Result (Config F)) → Startup F
  startup (err e) prior = exits
  startup (ok config) none = live_gate config
  startup (ok config) (some prior) = frozen_gate config prior
