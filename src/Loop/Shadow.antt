-- ===== src/Loop/Shadow.antt =====
-- The loop as `build_loop` wires it trades on paper only.
use i_am_not_a_trader_bot.Prelude.{
  Bool, true, false, List, [], ◌∷◌, All, ◌≡◌, sym, some, none, inl, inr, Bool-cases, leb, not, ◌&&◌,
  ◌+◌, ◌∙◌,
}
use i_am_not_a_trader_bot.Prelude.Result.{Result, ok, err}
use i_am_not_a_trader_bot.Prelude.Py.{Exec, pure, lift, ◌>>=◌, ◌>>◌}
use i_am_not_a_trader_bot.Prelude.Keeps.{Keeps, Keeps->>=}
use i_am_not_a_trader_bot.Float.{Float, IsOrdered}
use i_am_not_a_trader_bot.Config.{Config, Variant}
use i_am_not_a_trader_bot.Ledger.{Calendar, Ledger, Mode, record_evaluation, record_risk_event}
use i_am_not_a_trader_bot.Risk.{World, Approved, check, halted, record_failure, record_success}
use i_am_not_a_trader_bot.Risk.Effects.{IsQuiet, check-IsQuiet, halted-IsQuiet}
use i_am_not_a_trader_bot.Risk.Clearance.{IsSized, check-IsCleared}
use i_am_not_a_trader_bot.Executor.{shadow_execute, poll}
use i_am_not_a_trader_bot.Executor.Polls.{poll-Appends}
use i_am_not_a_trader_bot.Executor.Shadow.{AllShadow, StaysShadow, shadow_execute-StaysShadow}
use i_am_not_a_trader_bot.Engine.{Tick, record_eval, run_once}
use i_am_not_a_trader_bot.Engine.Steps.{IsKept, run_once-Keeps}
use i_am_not_a_trader_bot.Loop.{
  Hooks, Round, LoopState, in_ledger, in_world, evolution_due, evolve, housekeeping, absorbed,
  on_bucket_rollover, remember, turn, run_turns, changed, bucket_ts, sleep_after,
}
use i_am_not_a_trader_bot.Loop.Sound.{book}

module _ {F : Type 0} where
  -- The calls of the control processor and the evolution write no trades.
  pub record IsTradeless (hooks : Hooks F) : Type 0 where
    pub control : (l : Ledger F) → (hooks.control l).1.trades ≡ l.trades
    pub propose : (l : Ledger F) → (hooks.propose l).1.trades ≡ l.trades
    pub review : (l : Ledger F) → (hooks.review l).1.trades ≡ l.trades

module _ {F : Type 0} ⦃fl : Float F⦄ ⦃cal : Calendar F⦄ (laws : IsOrdered fl)
    (config : Config F) where
  abbrev reference : F
  reference = config.reference_stake_usd

  abbrev Stays : World F → World F → Type 0
  Stays w w' = StaysShadow reference w.ledger w'.ledger

  quiet-Stays : (w w' : World F) → IsQuiet w w' → Stays w w'
  quiet-Stays w w' (events, same, _) h = rw same h

  failure-Stays : (now : F) → Keeps Stays (record_failure config now)
  unfolding record_failure record_risk_event
  failure-Stays now w h =
      elim (Bool-cases (
        leb config.risk.consecutive_failure_halt (w.risk.consecutive_failures + 1)
        && not w.risk.failure_event_recorded)) [
          | inl halts ↦ rw halts h
          | inr goes_on ↦ rw goes_on h
        ]

  reference_sized :
      (variant : Variant F) (mode : Mode) (a : Approved F) (now : F) (l : Ledger F)
      → mode ≡ Mode.shadow
      → IsSized config variant mode a.limit_price a.stake_usd none now l
      → a.stake_usd ≡ reference
  reference_sized variant Mode.shadow a now l in_shadow sized = sized
  reference_sized variant Mode.live a now l in_shadow sized = absurd (cc)

  tick-IsKept : (tick : Tick F) → IsKept shadow_execute config tick Stays
  unfolding record_eval record_evaluation record_success
  tick-IsKept tick = record {
    stays = λ w h. h;
    chains = λ u v w p q h. q (p h);
    logs = λ snap v decision why w h. h;
    checks = λ variant decision snap w.
        quiet-Stays w
          (check config (tick.stop_for variant.id) variant decision snap tick.now none w).1
          (check-IsQuiet config (tick.stop_for variant.id) variant decision snap tick.now none w);
    executes = λ variant decision snap w a given u.
        let cleared =
          check-IsCleared laws config (tick.stop_for variant.id) variant decision snap tick.now none
            w a given in
        shadow_execute-StaysShadow tick.clock a reference snap
          (λ in_shadow.
            reference_sized variant _ a tick.now w.ledger (sym cleared.in_mode ∙ in_shadow)
              cleared.sized)
          u.ledger;
    halts = λ w.
        quiet-Stays w (halted config tick.stop tick.now w).1
          (halted-IsQuiet config tick.stop tick.now w);
    fails = failure-Stays tick.now;
    succeeds = λ w h. h;
  }

  module _ (timeout_sec : F) where
    abbrev Holds : LoopState F → LoopState F → Type 0
    Holds s t = StaysShadow reference (book s) (book t)

    after :
        {A B : Type 0} (m : Exec (LoopState F) A) (f : A → Exec (LoopState F) B)
        → Keeps Holds m
        → ((a : A) → Keeps Holds (f a))
        → Keeps Holds (m >>= f)
    after m f = Keeps->>= Holds m f (λ s t u p q h. q (p h))

    tradeless-Holds :
        {A : Type 0} (m : Exec (Ledger F) A)
        → ((l : Ledger F) → (m l).1.trades ≡ l.trades)
        → Keeps Holds (in_ledger m)
    tradeless-Holds m same s h = rw (same s.world.ledger) h

    evolve-Holds :
        (hooks : Hooks F) (now : F) (due : Bool)
        → IsTradeless hooks
        → Keeps Holds (evolve config timeout_sec hooks now due)
    evolve-Holds hooks now false h = λ s k. k
    evolve-Holds hooks now true h = λ s.
        after (in_ledger hooks.propose) (λ _. in_ledger hooks.review)
          (tradeless-Holds hooks.propose h.propose) (λ _. tradeless-Holds hooks.review h.review)
          (record s { last_evolution_ts = some now })

    housekeeping-Holds :
        (hooks : Hooks F) (now : F)
        → IsTradeless hooks
        → Keeps Holds (housekeeping config timeout_sec hooks now)
    housekeeping-Holds hooks now h =
        after (in_ledger (poll hooks.gamma timeout_sec now)) _
          (tradeless-Holds (poll hooks.gamma timeout_sec now)
            (λ l. (poll-Appends hooks.gamma timeout_sec now l).trades))
          (λ _.
            after (lift hooks.report) _ (λ s k. k)
              (λ _.
                after (lift hooks.export) _ (λ s k. k)
                  (λ _.
                    after (in_ledger hooks.control) _ (tradeless-Holds hooks.control h.control)
                      (λ _ s. evolve-Holds hooks now (evolution_due now s.last_evolution_ts) h s))))

    absorbed-Holds :
        (now : F) (r : Result (Unit {0})) (s t : LoopState F)
        → Holds s t
        → Holds s (absorbed config timeout_sec now (r, t))
    absorbed-Holds now (ok done) s t h k = h k
    absorbed-Holds now (err e) s t h k = failure-Stays now t.world (h k)

    rollover-Holds :
        (hooks : Hooks F) (now : F) (s : LoopState F)
        → IsTradeless hooks
        → Holds s (on_bucket_rollover config timeout_sec hooks now s)
    unfolding on_bucket_rollover
    rollover-Holds hooks now s h =
        absorbed-Holds now (housekeeping config timeout_sec hooks now s).0 s
          (housekeeping config timeout_sec hooks now s).1 (housekeeping-Holds hooks now h s)

    ticked-Holds :
        (round : Round F)
        → Keeps Holds (do
          status ← in_world (run_once shadow_execute config round.tick)
          remember config timeout_sec status
          pure (sleep_after config timeout_sec round.tick.now status))
    ticked-Holds round =
        after (in_world (run_once shadow_execute config round.tick)) _
          (λ s.
            run_once-Keeps shadow_execute config round.tick Stays (tick-IsKept round.tick) s.world)
          (λ status u k. k)

    turn-Holds :
        (round : Round F) → IsTradeless round.hooks → Keeps Holds (turn config timeout_sec round)
    unfolding turn
    turn-Holds round h s k = elim (Bool-cases (changed s.last_bucket (bucket_ts round.tick.now))) [
      | inl rolls ↦ rw rolls (
          let rolled = on_bucket_rollover config timeout_sec round.hooks round.tick.now s in
          ticked-Holds round (record rolled { last_bucket = some (bucket_ts round.tick.now) })
            (rollover-Holds round.hooks round.tick.now s h k))
      | inr stays ↦
          rw stays
            (ticked-Holds round (record s { last_bucket = some (bucket_ts round.tick.now) }) k)
    ]

    turns-Holds :
        (rounds : List (Round F))
        → All (λ r. IsTradeless r.hooks) rounds
        → Keeps Holds (run_turns config timeout_sec rounds)
    unfolding run_turns
    turns-Holds [] _ = λ s k. k
    turns-Holds (round ∷ rounds) (h, hs) =
        after (turn config timeout_sec round) _ (turn-Holds round h) (λ seconds.
          after (run_turns config timeout_sec rounds) _ (turns-Holds rounds hs) (λ rest s k. k))

    -- However long the loop runs, and whatever the configuration's variants are, a ledger that has
    -- only shadow trades at the reference stake has only such trades afterwards, if the control
    -- processor and the evolution write no trades.
    pub run_turns-AllShadow :
        (rounds : List (Round F)) (s : LoopState F)
        → All (λ r. IsTradeless r.hooks) rounds
        → AllShadow config.reference_stake_usd (book s)
        → AllShadow config.reference_stake_usd (book (run_turns config timeout_sec rounds s).1)
    run_turns-AllShadow rounds s hooks start = turns-Holds rounds hooks s start
