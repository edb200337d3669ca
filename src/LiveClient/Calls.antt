-- ===== src/LiveClient/Calls.antt =====
-- The live executor's calls in any order, as the daemon makes them, against the ledger's promises.
use i_am_not_a_trader_bot.Prelude.{List, [], ◌∷◌}
use i_am_not_a_trader_bot.Float.{Float}
use i_am_not_a_trader_bot.Signals.{FeatureSnapshot}
use i_am_not_a_trader_bot.Config.{Config}
use i_am_not_a_trader_bot.Ledger.Validity.{IsValid}
use i_am_not_a_trader_bot.Ledger.History.{Extends}
use i_am_not_a_trader_bot.Ledger.Sound.{IsSound, IsSound-refl, IsSound-trans}
use i_am_not_a_trader_bot.Risk.{Approved}
use i_am_not_a_trader_bot.LiveClient.{Venue, LiveState, live_execute, poll_fills, cancel_stale}
use i_am_not_a_trader_bot.LiveClient.Reconcile.{reconcile_on_startup}
use i_am_not_a_trader_bot.LiveClient.Sound.{
  live_execute-Sound, poll_fills-Sound, cancel_stale-Sound,
}
use i_am_not_a_trader_bot.LiveClient.Restart.{reconcile_on_startup-Sound}

-- A call of the daemon: an entry, a poll of the fills, the exit before the close, and a restart.
pub data Call (F : Type 0) : Type 0 where
  execute : F → Approved F → FeatureSnapshot F → Call F
  poll : Call F
  cancel : F → Call F
  restart : F → Call F

module _ {F V : Type 0} ⦃fl : Float F⦄ (venue : Venue F V) (config : Config F) where
  -- The state after a call, whether it returned or raised. A restart loses the tracked orders.
  unfoldable pub make : Call F → LiveState F V → LiveState F V
  make (execute clock a snap) s = (live_execute venue clock a snap s).1
  make poll s = (poll_fills venue s).1
  make (cancel now) s = (cancel_stale venue config now s).1
  make (restart now) s = (reconcile_on_startup venue config now (record s { orders = [] })).1

  unfoldable pub make_all : List (Call F) → LiveState F V → LiveState F V
  make_all [] s = s
  make_all (c ∷ cs) s = make_all cs (make c s)

  make-IsSound : (c : Call F) (s : LiveState F V) → IsSound s.ledger (make c s).ledger
  unfolding make
  make-IsSound (execute clock a snap) s = live_execute-Sound venue clock a snap s
  make-IsSound poll s = poll_fills-Sound venue s
  make-IsSound (cancel now) s = cancel_stale-Sound venue config now s
  make-IsSound (restart now) s =
      reconcile_on_startup-Sound venue config now (record s { orders = [] })

  make_all-IsSound :
      (cs : List (Call F)) (s : LiveState F V) → IsSound s.ledger (make_all cs s).ledger
  unfolding make_all
  make_all-IsSound [] s = IsSound-refl s.ledger
  make_all-IsSound (c ∷ cs) s =
      IsSound-trans s.ledger (make c s).ledger (make_all cs (make c s)).ledger (make-IsSound c s)
        (make_all-IsSound cs (make c s))

  -- Whatever the venue answers or raises, and in whatever order entries, polls, exits before the
  -- close and restarts follow each other, the live executor leaves a valid ledger valid and takes
  -- nothing from its history.
  pub make_all-IsValid :
      (cs : List (Call F)) (s : LiveState F V)
      → IsValid s.ledger
      → IsValid (make_all cs s).ledger × Extends s.ledger (make_all cs s).ledger
  make_all-IsValid cs s valid =
      let sound = make_all-IsSound cs s in (sound.keeps_valid valid, sound.extends)
