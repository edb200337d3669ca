-- ===== src/Loop.antt =====
-- engine/main.py: `EngineLoop.run_forever` with its housekeeping at each new bucket, wired as
-- `build_loop` does it: with the shadow executor and the resolution poller.
pub mod Sound
pub mod Cadence
pub mod Shadow
pub mod Wiring
use i_am_not_a_trader_bot.Prelude.{
  ℕ, ◌*◌, String, Bool, true, false, not, Option, none, some, List, [], ◌∷◌, ◌==◌, if◌then◌else◌,
}
use i_am_not_a_trader_bot.Prelude.Result.{Result, ok, err}
use i_am_not_a_trader_bot.Prelude.Py.{Exec, pure, lift, gets, ◌>>=◌, ◌>>◌}
use i_am_not_a_trader_bot.Float.{Float, ◌≼◌, ◌⊖◌, of_ℕ}
use i_am_not_a_trader_bot.Signals.{Side, bucket_sec}
use i_am_not_a_trader_bot.Config.{Config}
use i_am_not_a_trader_bot.Ledger.{Calendar, Ledger}
use i_am_not_a_trader_bot.Risk.{World, record_failure}
use i_am_not_a_trader_bot.Executor.{shadow_execute, poll}
use i_am_not_a_trader_bot.Engine.{
  Tick, TickStatus, parked, no_market, tick_ok, tick_error, run_once, seconds_until_next_tick,
  poll_sec,
}

-- What the collaborators of a rollover answer or do: Gamma's outcomes, the report and the export of
-- the ledger, which only read it, and the calls of the control processor and of the evolution.
pub record Hooks (F : Type 0) : Type 0 where
  pub gamma : String → Option Side
  pub report : Result (Unit {0})
  pub export : Result (Unit {0})
  pub control : Exec (Ledger F) (Unit {0})
  pub propose : Exec (Ledger F) (Unit {0})
  pub review : Exec (Ledger F) (Unit {0})

-- What one turn of the loop is given from outside.
pub record Round (F : Type 0) : Type 0 where
  pub tick : Tick F
  pub hooks : Hooks F

pub record LoopState (F : Type 0) : Type 0 where
  pub world : World F
  pub last_bucket : Option ℕ
  pub last_status : Option TickStatus
  pub last_evolution_ts : Option F

-- EVOLUTION_HOOK_SEC
abbrev pub evolution_hook_sec : ℕ
evolution_hook_sec = 3600

-- `self._last_bucket is not None and bucket != self._last_bucket`
abbrev pub changed : Option ℕ → ℕ → Bool
changed none bucket = false
changed (some last) bucket = not (last == bucket)

module _ {F : Type 0} where
  abbrev pub in_ledger : {A : Type 0} → Exec (Ledger F) A → Exec (LoopState F) A
  in_ledger m s =
      let (r, l) = m s.world.ledger in (r, record s { world = record (s.world) { ledger = l } })

  abbrev pub in_world : {A : Type 0} → Exec (World F) A → Exec (LoopState F) A
  in_world m s = let (r, w) = m s.world in (r, record s { world = w })

module _ {F : Type 0} ⦃fl : Float F⦄ where
  abbrev pub bucket_ts : F → ℕ
  bucket_ts now = fl.floor_div now bucket_sec * bucket_sec

  abbrev pub evolution_due : F → Option F → Bool
  evolution_due now none = true
  evolution_due now (some last) = of_ℕ evolution_hook_sec ≼ (now ⊖ last)

  module _ ⦃cal : Calendar F⦄ (config : Config F) (timeout_sec : F) where
    abbrev pub evolve : Hooks F → F → Bool → Exec (LoopState F) (Unit {0})
    evolve hooks now false = pure tt
    evolve hooks now true = do
      (λ s. (ok tt, record s { last_evolution_ts = some now }))
      in_ledger hooks.propose
      in_ledger hooks.review

    -- The body of the `try` in `_on_bucket_rollover`.
    abbrev pub housekeeping : Hooks F → F → Exec (LoopState F) (Unit {0})
    housekeeping hooks now = do
      in_ledger (poll hooks.gamma timeout_sec now)
      lift hooks.report
      lift hooks.export
      in_ledger hooks.control
      last ← gets (λ (s : LoopState F). s.last_evolution_ts)
      evolve hooks now (evolution_due now last)

    -- The `except`: housekeeping must never kill the loop.
    abbrev pub absorbed : F → Result (Unit {0}) × LoopState F → LoopState F
    absorbed now (ok _, s) = s
    absorbed now (err e, s) = (in_world (record_failure config now) s).1

    unfoldable pub on_bucket_rollover : Hooks F → F → LoopState F → LoopState F
    on_bucket_rollover hooks now s = absorbed now (housekeeping hooks now s)

    -- How long the loop sleeps after a tick.
    unfoldable pub sleep_after : F → TickStatus → F
    sleep_after now parked = of_ℕ poll_sec
    sleep_after now no_market = seconds_until_next_tick config now
    sleep_after now tick_ok = seconds_until_next_tick config now
    sleep_after now tick_error = seconds_until_next_tick config now

    abbrev pub remember : TickStatus → Exec (LoopState F) (Unit {0})
    remember status s = (ok tt, record s { last_status = some status })

    -- One turn of `run_forever`; the result is what is passed to the sleeper.
    unfoldable pub turn : Round F → Exec (LoopState F) F
    turn round s =
        let now = round.tick.now in
        let bucket = bucket_ts now in
        let rolled =
          if changed s.last_bucket bucket then on_bucket_rollover round.hooks now s else s in
        (do
          status ← in_world (run_once shadow_execute config round.tick)
          remember status
          pure (sleep_after now status))
          (record rolled { last_bucket = some bucket })

    -- Any number of turns, and the sleeps between them.
    unfoldable pub run_turns : List (Round F) → Exec (LoopState F) (List F)
    run_turns [] = pure []
    run_turns (round ∷ rounds) = do
      seconds ← turn round
      rest ← run_turns rounds
      pure (seconds ∷ rest)
