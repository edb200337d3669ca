-- ===== src/Loop/Cadence.antt =====
-- The turns of the loop and the sleeps between them, for params whose values are numbers.
use i_am_not_a_trader_bot.Prelude.{
  ◌+◌, false, ◌≡◌, refl, List, [], ◌∷◌, All, length, arith, if◌then◌else◌, inl, inr, Bool-cases,
}
use i_am_not_a_trader_bot.Prelude.Result.{ok}
use i_am_not_a_trader_bot.Float.{Float, IsOrdered, ◌≺◌, ◌≼◌, ◌⊖◌, of_ℕ, max}
use i_am_not_a_trader_bot.Signals.{bucket_sec}
use i_am_not_a_trader_bot.Config.{Config}
use i_am_not_a_trader_bot.Ledger.{Calendar}
use i_am_not_a_trader_bot.Executor.{shadow_execute}
use i_am_not_a_trader_bot.Engine.{
  TickStatus, parked, no_market, tick_ok, tick_error, seconds_until_next_tick, poll_sec,
  entry_window_end,
}
use i_am_not_a_trader_bot.Engine.Failures.{run_once-Survives}
use i_am_not_a_trader_bot.Loop.{
  Round, LoopState, changed, bucket_ts, on_bucket_rollover, sleep_after, turn, run_turns,
}

module _ {F : Type 0} ⦃fl : Float F⦄ ⦃cal : Calendar F⦄ (laws : IsOrdered fl) (config : Config F)
    (timeout_sec : F) where
  open laws use {lt_irrefl, not_lt_of_le, decimal_mono}

  -- At least one second.
  abbrev pub IsLong : F → Type 0
  IsLong seconds = (seconds ≺ of_ℕ 1) ≡ false

  max-IsLong : (x : F) → IsLong (max x (of_ℕ 1))
  max-IsLong x = ground (arith, lt_irrefl (of_ℕ 1))

  poll_sec-IsLong : IsLong (of_ℕ poll_sec)
  poll_sec-IsLong = not_lt_of_le (of_ℕ 1) (of_ℕ poll_sec) (decimal_mono 1 0 3 0 (omega arith))

  next_tick-IsLong : (now : F) → IsLong (seconds_until_next_tick config now)
  unfolding seconds_until_next_tick
  next_tick-IsLong now = elim (Bool-cases (now ≼ entry_window_end config (bucket_ts now))) [
    | inl inside ↦ rw inside poll_sec-IsLong
    | inr outside ↦ rw outside (max-IsLong (of_ℕ (bucket_ts now + bucket_sec) ⊖ now))
  ]

  sleep_after-IsLong :
      (now : F) (status : TickStatus) → IsLong (sleep_after config timeout_sec now status)
  unfolding sleep_after
  sleep_after-IsLong now parked = poll_sec-IsLong
  sleep_after-IsLong now no_market = next_tick-IsLong now
  sleep_after-IsLong now tick_ok = next_tick-IsLong now
  sleep_after-IsLong now tick_error = next_tick-IsLong now

  turn-IsLong :
      (round : Round F) (s : LoopState F)
      → (seconds : F) × ((turn config timeout_sec round s).0 ≡ ok seconds) × IsLong seconds
  unfolding turn
  turn-IsLong round s =
      let now = round.tick.now in
      let rolled : LoopState F =
        if changed s.last_bucket (bucket_ts now)
        then on_bucket_rollover config timeout_sec round.hooks now s
        else s in
      let (status, returned, _) = run_once-Survives shadow_execute config round.tick rolled.world in
      rw returned (sleep_after config timeout_sec now status, refl, sleep_after-IsLong now status)

  -- For a configuration whose params hold numbers: however many turns the loop makes, and whatever
  -- the snapshot, the rule-sets, the checks and the callbacks of a bucket raise in them, each turn
  -- returns a number of seconds to sleep that is not below one.
  pub run_turns-IsLong :
      (rounds : List (Round F)) (s : LoopState F)
      → (seconds : List F) × ((run_turns config timeout_sec rounds s).0 ≡ ok seconds)
        × (length seconds ≡ length rounds)
        × All IsLong seconds
  unfolding run_turns
  run_turns-IsLong [] s = ([], refl, refl, tt)
  run_turns-IsLong (round ∷ rounds) s =
      let (first, returned, long) = turn-IsLong round s in
      let (rest, after, same, longer) =
        run_turns-IsLong rounds (turn config timeout_sec round s).1 in
      rw (returned, after) (first ∷ rest, refl, omega (arith, same), (long, longer))
