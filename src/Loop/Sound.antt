-- ===== src/Loop/Sound.antt =====
-- The loop against the ledger's promises.
use i_am_not_a_trader_bot.Prelude.{
  Bool, true, false, List, [], ◌∷◌, All, some, inl, inr, Bool-cases,
}
use i_am_not_a_trader_bot.Prelude.Result.{Result, ok, err}
use i_am_not_a_trader_bot.Prelude.Py.{Exec, pure, lift, ◌>>=◌, ◌>>◌}
use i_am_not_a_trader_bot.Float.{Float}
use i_am_not_a_trader_bot.Config.{Config}
use i_am_not_a_trader_bot.Ledger.{Calendar, Ledger}
use i_am_not_a_trader_bot.Ledger.History.{Extends}
use i_am_not_a_trader_bot.Ledger.Validity.{IsValid}
use i_am_not_a_trader_bot.Ledger.Sound.{
  IsSound, IsSound-refl, IsSound-trans, KeepsSound, Sound, Sound->>=,
}
use i_am_not_a_trader_bot.Risk.{World}
use i_am_not_a_trader_bot.Executor.{shadow_execute, poll}
use i_am_not_a_trader_bot.Executor.Sound.{shadow_execute-KeepsSound, poll-KeepsSound}
use i_am_not_a_trader_bot.Engine.{run_once}
use i_am_not_a_trader_bot.Engine.Sound.{ledger_of, run_once-Sound, record_failure-Sound}
use i_am_not_a_trader_bot.Loop.{
  Hooks, Round, LoopState, in_ledger, in_world, evolution_due, evolve, housekeeping, absorbed,
  on_bucket_rollover, remember, turn, run_turns, changed, bucket_ts, sleep_after,
}

module _ {F : Type 0} where
  abbrev pub book : LoopState F → Ledger F
  book s = s.world.ledger

  -- The calls of the control processor and the evolution keep the ledger's history and constraints.
  pub record IsSoundHooks (hooks : Hooks F) : Type 0 where
    pub control : KeepsSound hooks.control
    pub propose : KeepsSound hooks.propose
    pub review : KeepsSound hooks.review

  in_ledger-Sound : {A : Type 0} (m : Exec (Ledger F) A) → KeepsSound m → Sound book (in_ledger m)
  in_ledger-Sound m h s = h s.world.ledger

  lift-Sound : {A : Type 0} (r : Result A) → Sound book (lift r)
  lift-Sound r s = IsSound-refl s.world.ledger

  in_world-Sound : {A : Type 0} (m : Exec (World F) A) → Sound ledger_of m → Sound book (in_world m)
  in_world-Sound m h s = h s.world

  after :
      {A B : Type 0} (m : Exec (LoopState F) A) (f : A → Exec (LoopState F) B)
      → Sound book m
      → ((a : A) → Sound book (f a))
      → Sound book (m >>= f)
  after m f = Sound->>= book m f

module _ {F : Type 0} ⦃fl : Float F⦄ ⦃cal : Calendar F⦄ (config : Config F) (timeout_sec : F) where
  evolve-Sound :
      (hooks : Hooks F) (now : F) (due : Bool)
      → IsSoundHooks hooks
      → Sound book (evolve config timeout_sec hooks now due)
  evolve-Sound hooks now false h = λ s. IsSound-refl s.world.ledger
  evolve-Sound hooks now true h = λ s.
      after (in_ledger hooks.propose) (λ _. in_ledger hooks.review)
        (in_ledger-Sound hooks.propose h.propose) (λ _. in_ledger-Sound hooks.review h.review)
        (record s { last_evolution_ts = some now })

  housekeeping-Sound :
      (hooks : Hooks F) (now : F)
      → IsSoundHooks hooks
      → Sound book (housekeeping config timeout_sec hooks now)
  housekeeping-Sound hooks now h =
      after (in_ledger (poll hooks.gamma timeout_sec now)) _
        (in_ledger-Sound (poll hooks.gamma timeout_sec now)
          (poll-KeepsSound hooks.gamma timeout_sec now))
        (λ _. after (lift hooks.report) _ (lift-Sound hooks.report) (λ _.
          after (lift hooks.export) _ (lift-Sound hooks.export) (λ _.
            after (in_ledger hooks.control) _ (in_ledger-Sound hooks.control h.control)
              (λ _ s. evolve-Sound hooks now (evolution_due now s.last_evolution_ts) h s))))

  absorbed-Sound :
      (now : F) (r : Result (Unit {0})) (s t : LoopState F)
      → IsSound (book s) (book t)
      → IsSound (book s) (book (absorbed config timeout_sec now (r, t)))
  absorbed-Sound now (ok tt) s t h = h
  absorbed-Sound now (err e) s t h =
      IsSound-trans (book s) (book t) _ h (record_failure-Sound config now t.world)

  pub on_bucket_rollover-IsSound :
      (hooks : Hooks F) (now : F) (s : LoopState F)
      → IsSoundHooks hooks
      → IsSound (book s) (book (on_bucket_rollover config timeout_sec hooks now s))
  unfolding on_bucket_rollover
  on_bucket_rollover-IsSound hooks now s h =
      absorbed-Sound now (housekeeping config timeout_sec hooks now s).0 s
        (housekeeping config timeout_sec hooks now s).1 (housekeeping-Sound hooks now h s)

  ticked-Sound :
      (round : Round F)
      → Sound book (do
        status ← in_world (run_once shadow_execute config round.tick)
        remember config timeout_sec status
        pure (sleep_after config timeout_sec round.tick.now status))
  ticked-Sound round =
      after (in_world (run_once shadow_execute config round.tick)) _
        (in_world-Sound (run_once shadow_execute config round.tick)
          (run_once-Sound shadow_execute shadow_execute-KeepsSound config round.tick))
        (λ status u. IsSound-refl (book u))

  turn-Sound :
      (round : Round F) → IsSoundHooks round.hooks → Sound book (turn config timeout_sec round)
  unfolding turn
  turn-Sound round h s = elim (Bool-cases (changed s.last_bucket (bucket_ts round.tick.now))) [
    | inl rolls ↦ rw rolls (
        let rolled = on_bucket_rollover config timeout_sec round.hooks round.tick.now s in
        IsSound-trans (book s) (book rolled) _
          (on_bucket_rollover-IsSound round.hooks round.tick.now s h)
          (ticked-Sound round (record rolled { last_bucket = some (bucket_ts round.tick.now) })))
    | inr stays ↦
        rw stays (ticked-Sound round (record s { last_bucket = some (bucket_ts round.tick.now) }))
  ]

  run_turns-Sound :
      (rounds : List (Round F))
      → All (λ r. IsSoundHooks r.hooks) rounds
      → Sound book (run_turns config timeout_sec rounds)
  unfolding run_turns
  run_turns-Sound [] _ = λ s. IsSound-refl (book s)
  run_turns-Sound (round ∷ rounds) (h, hs) =
      after (turn config timeout_sec round) _ (turn-Sound round h) (λ seconds.
        after (run_turns config timeout_sec rounds) _ (run_turns-Sound rounds hs)
          (λ rest s. IsSound-refl (book s)))

  -- Any number of turns of the loop leaves a valid ledger valid and takes nothing from its history,
  -- whatever raises in them, if the control processor and the evolution do so too.
  pub run_turns-IsValid :
      (rounds : List (Round F)) (s : LoopState F)
      → All (λ r. IsSoundHooks r.hooks) rounds
      → IsValid (book s)
      → IsValid (book (run_turns config timeout_sec rounds s).1)
        × Extends (book s) (book (run_turns config timeout_sec rounds s).1)
  run_turns-IsValid rounds s hooks valid =
      let sound = run_turns-Sound rounds hooks s in (sound.keeps_valid valid, sound.extends)
