-- ===== src/Examples/EngineTests.antt =====
-- engine/main.py on concrete inputs.
use i_am_not_a_trader_bot.Prelude.{
  List, ◌≡◌, ◌↔◌, refl, false, none, some, [], ◌∷◌, map, All, length,
}
use i_am_not_a_trader_bot.Prelude.Result.{ok, err, config_error, external_error}
use i_am_not_a_trader_bot.Prelude.Py.{pure, raise}
use i_am_not_a_trader_bot.Float.{divide, ◌≺◌, of_ℕ}
use i_am_not_a_trader_bot.Float.Micros.{ℤ, micros, micros-IsOrdered}
use i_am_not_a_trader_bot.Signals.{up, spread, impulse_available, btc_move_usd, skew_ratio}
use i_am_not_a_trader_bot.Config.{Variant, check_frozen, live_variants, active_variants}
use i_am_not_a_trader_bot.Rulesets.{
  evaluate, momentum_follow, common_guards, directional_move, follow, contrarian_fade, skew_filter,
  skew_side,
}
use i_am_not_a_trader_bot.Ledger.{
  has_entry, update_open, record_evaluation, record_trade, update_trade_fill,
}
use i_am_not_a_trader_bot.Risk.{
  halted, stop_active, check, check_enter, check_entry, size, market_guards, approve,
  record_success,
}
use i_am_not_a_trader_bot.Executor.{shadow_execute, taker_fee}
use i_am_not_a_trader_bot.Executor.Evaluations.{evaluations-shadow_execute}
use i_am_not_a_trader_bot.Engine.{
  Tick, tick_ok, startup, starts, exits, run_once, evaluate_all, evaluate_variant, record_eval,
}
use i_am_not_a_trader_bot.Engine.Gates.{IsSafeStart, startup-IsSafeStart}
use i_am_not_a_trader_bot.Engine.Failures.{Survives, run_once-Survives}
use i_am_not_a_trader_bot.Engine.Evaluations.{Logged, run_once-Logs}
use i_am_not_a_trader_bot.Loop.{Hooks, Round, LoopState, run_turns}
use i_am_not_a_trader_bot.Executor.Shadow.{AllShadow}
use i_am_not_a_trader_bot.Loop.Shadow.{IsTradeless, run_turns-AllShadow}
use i_am_not_a_trader_bot.Loop.Cadence.{run_turns-IsLong}
use i_am_not_a_trader_bot.Examples.{cents, config, snap, now, start, seconds, one_day}

starts_again : startup (ok config) (some (ok config)) ≡ starts config
unfolding startup check_frozen live_variants
starts_again = refl

startup-IsSafeStart_example :
    (startup (ok config) (some (ok config)) ≡ starts config)
    ↔ IsSafeStart (ok config) (some (ok config)) config
startup-IsSafeStart_example = startup-IsSafeStart (ok config) (some (ok config)) config

broken_snapshot_exits : startup (ok config) (some (err config_error)) ≡ exits
unfolding startup
broken_snapshot_exits = refl

abbrev tick : Tick ℤ
tick = record {
  now = now;
  stop = false;
  stop_for = λ id. false;
  market = ok (some snap);
  clock = now;
}

abbrev broken_tick : Tick ℤ
broken_tick = record tick { market = err external_error }

run_once-Survives_example : Survives start (run_once shadow_execute config broken_tick start)
run_once-Survives_example = run_once-Survives shadow_execute config broken_tick start

three_evaluations :
    map (λ (v : Variant ℤ). v.id) (active_variants config)
    ≡ ("momentum-1" ∷ "fade-1" ∷ "skew-1" ∷ [])
unfolding active_variants
three_evaluations = refl

-- A tick that enters the momentum trade and the two others as their rule-sets decide.
ticks : (run_once shadow_execute config tick start).0 ≡ ok tick_ok
unfolding run_once evaluate_all evaluate_variant record_eval record_evaluation active_variants
    evaluate halted stop_active check check_enter check_entry size market_guards approve has_entry
    spread shadow_execute taker_fee divide record_trade update_trade_fill update_open record_success
    momentum_follow common_guards impulse_available btc_move_usd directional_move follow
    contrarian_fade skew_filter skew_ratio skew_side
ticks = refl

run_once-Logs_example :
    Logged
      (map (λ (v : Variant ℤ). v.id) (active_variants config))
      start.ledger
      (run_once shadow_execute config tick start).1.ledger
run_once-Logs_example =
    run_once-Logs shadow_execute evaluations-shadow_execute config tick start ticks

abbrev hooks : Hooks ℤ
hooks = record {
  gamma = λ slug. some up;
  report = err external_error;
  export = ok tt;
  control = pure tt;
  propose = pure tt;
  review = raise external_error;
}

abbrev boot : LoopState ℤ
boot = record { world = start; last_bucket = none; last_status = none; last_evolution_ts = none }

-- A tick in a bucket, a broken one in the same bucket, and a rollover whose report raises.
abbrev rounds : List (Round ℤ)
rounds =
    record { tick = tick; hooks = hooks }
    ∷ record { tick = broken_tick; hooks = hooks }
    ∷ record { tick = record broken_tick { now = seconds 1600 }; hooks = hooks }
    ∷ []

run_turns-IsLong_example :
    (sleeps : List ℤ) × ((run_turns config (seconds 21600) rounds boot).0 ≡ ok sleeps)
    × (length sleeps ≡ 3)
    × All (λ s. (s ≺ of_ℕ 1) ≡ false) sleeps
run_turns-IsLong_example = run_turns-IsLong micros-IsOrdered config (seconds 21600) rounds boot

hooks-IsTradeless : IsTradeless hooks
hooks-IsTradeless = record { control = λ l. refl; propose = λ l. refl; review = λ l. refl }

run_turns-AllShadow_example :
    AllShadow (cents 500) (run_turns config (seconds 21600) rounds boot).1.world.ledger
run_turns-AllShadow_example =
    run_turns-AllShadow micros-IsOrdered config (seconds 21600) rounds boot
      (hooks-IsTradeless, (hooks-IsTradeless, (hooks-IsTradeless, tt))) tt
