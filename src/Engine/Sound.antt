-- ===== src/Engine/Sound.antt =====
-- A tick of the engine against the ledger's promises.
use i_am_not_a_trader_bot.Engine.{record_eval, run_once, Tick, Execute}
use i_am_not_a_trader_bot.Engine.Steps.{IsKept, run_once-Keeps}
use i_am_not_a_trader_bot.Risk.{
  check, halted, record_success, record_failure, on_ledger, Approved, World,
}
use i_am_not_a_trader_bot.Prelude.{not, ◌&&◌, ◌+◌, leb, Bool-cases, inr, inl, none, refl}
use i_am_not_a_trader_bot.Prelude.Py.{Exec}
use i_am_not_a_trader_bot.Float.{Float}
use i_am_not_a_trader_bot.Ledger.{Calendar, Ledger}
use i_am_not_a_trader_bot.Risk.Effects.{halted-IsQuiet, check-IsQuiet, IsQuiet}
use i_am_not_a_trader_bot.Ledger.Sound.{
  record_risk_event-KeepsSound, IsSound-trans, record_evaluation-KeepsSound, IsSound-refl, Sound,
  IsSound, KeepsSound,
}
use i_am_not_a_trader_bot.Ledger.History.{Extends-risk_events}
use i_am_not_a_trader_bot.Signals.{FeatureSnapshot}
use i_am_not_a_trader_bot.Config.{Config}

module _ {F : Type 0} where
  abbrev pub ledger_of : World F → Ledger F
  ledger_of w = w.ledger

  pub on_ledger-Sound :
      {A : Type 0} (m : Exec (Ledger F) A) → KeepsSound m → Sound ledger_of (on_ledger m)
  on_ledger-Sound m h w = h w.ledger

  -- Appended risk events are sound.
  pub IsQuiet-IsSound : (w w' : World F) → IsQuiet w w' → IsSound w.ledger w'.ledger
  IsQuiet-IsSound w w' (events, same, _) = rw same (record {
    extends = Extends-risk_events w.ledger _ (events, refl);
    keeps_valid = λ h. record { entries = h.entries; ids = h.ids; markets = h.markets };
  })

module _ {F : Type 0} ⦃fl : Float F⦄ ⦃cal : Calendar F⦄ where
  pub record_failure-Sound :
      (config : Config F) (now : F) → Sound ledger_of (record_failure config now)
  unfolding record_failure
  record_failure-Sound config now w =
      elim (Bool-cases (
        leb config.risk.consecutive_failure_halt (w.risk.consecutive_failures + 1)
        && not w.risk.failure_event_recorded)) [
          | inl halts ↦ rw halts (record_risk_event-KeepsSound now _ w.ledger)
          | inr goes_on ↦ rw goes_on (IsSound-refl w.ledger)
        ]

module _ {F : Type 0} ⦃fl : Float F⦄ ⦃cal : Calendar F⦄ (execute : Execute F)
    (executes : (clock : F) (a : Approved F) (snap : FeatureSnapshot F)
      → KeepsSound (execute clock a snap))
    (config : Config F) (tick : Tick F) where
  abbrev SoundWorlds : World F → World F → Type 0
  SoundWorlds w w' = IsSound w.ledger w'.ledger

  tick-IsKept : IsKept execute config tick SoundWorlds
  unfolding record_eval record_success
  tick-IsKept = record {
    stays = λ w. IsSound-refl w.ledger;
    chains = λ u v w p q. IsSound-trans u.ledger v.ledger w.ledger p q;
    logs = λ snap v decision why w.
        record_evaluation-KeepsSound tick.now snap.bucket_ts v snap decision why w.ledger;
    checks = λ variant decision snap w.
        IsQuiet-IsSound w
          (check config (tick.stop_for variant.id) variant decision snap tick.now none w).1
          (check-IsQuiet config (tick.stop_for variant.id) variant decision snap tick.now none w);
    executes = λ variant decision snap w a given u. executes tick.clock a snap u.ledger;
    halts = λ w.
        IsQuiet-IsSound w (halted config tick.stop tick.now w).1
          (halted-IsQuiet config tick.stop tick.now w);
    fails = record_failure-Sound config tick.now;
    succeeds = λ w. IsSound-refl w.ledger;
  }

  -- A tick keeps the ledger's history and its constraints, however it ends, if the executor does.
  pub run_once-Sound : Sound ledger_of (run_once execute config tick)
  run_once-Sound = run_once-Keeps execute config tick SoundWorlds tick-IsKept
