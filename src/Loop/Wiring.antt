-- ===== src/Loop/Wiring.antt =====
-- engine/main.py, `build_loop`: the loop with the control processor and the evolution in the place of
-- the calls that Loop leaves open.
use i_am_not_a_trader_bot.Prelude.{String, Option, List, [], ◌∷◌, map, All}
use i_am_not_a_trader_bot.Prelude.Result.{Result, map_ok}
use i_am_not_a_trader_bot.Prelude.Py.{Exec}
use i_am_not_a_trader_bot.Float.{Float, IsOrdered}
use i_am_not_a_trader_bot.Signals.{Side}
use i_am_not_a_trader_bot.Config.{Config}
use i_am_not_a_trader_bot.Ledger.{Calendar, Ledger}
use i_am_not_a_trader_bot.Ledger.History.{Extends}
use i_am_not_a_trader_bot.Ledger.Validity.{IsValid}
use i_am_not_a_trader_bot.Ledger.Admin.{IsAdmin}
use i_am_not_a_trader_bot.Control.{Content, Request, ControlState}
use i_am_not_a_trader_bot.Control.Lessons.{process_control_files}
use i_am_not_a_trader_bot.Control.Passes.{process_control_files-IsAdmin}
use i_am_not_a_trader_bot.Evolution.{Files, Desk, Resample, propose_and_spawn, review_promotions}
use i_am_not_a_trader_bot.Evolution.Accounts.{propose_and_spawn-IsClerical}
use i_am_not_a_trader_bot.Evolution.Refinement.{review_promotions-IsAdmin}
use i_am_not_a_trader_bot.Executor.Shadow.{AllShadow}
use i_am_not_a_trader_bot.Engine.{Tick}
use i_am_not_a_trader_bot.Loop.{Round, LoopState, run_turns}
use i_am_not_a_trader_bot.Loop.Sound.{book, IsSoundHooks, run_turns-IsValid}
use i_am_not_a_trader_bot.Loop.Shadow.{IsTradeless, run_turns-AllShadow}

-- What a turn finds: the files as each call meets them, and the answers of the outside.
pub record Surroundings (F : Type 0) : Type 0 where
  pub tick : Tick F
  pub gamma : String → Option Side
  pub report : Result (Unit {0})
  pub export : Result (Unit {0})
  pub lessons : List (String × Content String)
  pub prose : List (String × Content String)
  pub requests : List (String × Content (Request F))
  pub controlled : ControlState F
  pub sha256 : String → String
  pub date : F → String
  pub proposing : Files F
  pub reviewing : Files F
  pub resample : Resample F
  pub desk : Desk F

module _ {F : Type 0} ⦃fl : Float F⦄ where
  -- The ledger is the loop's.
  abbrev pub control_hook : Surroundings F → Exec (Ledger F) (Unit {0})
  control_hook around l =
      let (r, t) =
        process_control_files around.sha256 around.date around.tick.now around.lessons around.prose
          around.requests (record (around.controlled) { ledger = l }) in
      (r, t.ledger)

  abbrev pub propose_hook : Surroundings F → Exec (Ledger F) (Unit {0})
  propose_hook around l =
      let (r, t) =
        propose_and_spawn around.tick.now around.resample
          (record (around.proposing) { ledger = l }) in
      (map_ok (λ _. tt) r, t.ledger)

  abbrev pub review_hook : Surroundings F → Exec (Ledger F) (Unit {0})
  review_hook around l =
      let (r, t) =
        review_promotions (record (around.desk) { now = around.tick.now })
          (record (around.reviewing) { ledger = l }) in
      (r, t.ledger)

  abbrev pub wired : Surroundings F → Round F
  wired around = record {
    tick = around.tick;
    hooks = record {
      gamma = around.gamma;
      report = around.report;
      export = around.export;
      control = control_hook around;
      propose = propose_hook around;
      review = review_hook around;
    };
  }

  module _ (around : Surroundings F) (l : Ledger F) where
    control-IsAdmin : IsAdmin l (control_hook around l).1
    control-IsAdmin =
        process_control_files-IsAdmin around.sha256 around.date around.tick.now around.lessons
          around.prose around.requests (record (around.controlled) { ledger = l })

    propose-IsAdmin : IsAdmin l (propose_hook around l).1
    propose-IsAdmin =
        (propose_and_spawn-IsClerical around.tick.now around.resample).at
          (record (around.proposing) { ledger = l })

    review-IsAdmin : IsAdmin l (review_hook around l).1
    review-IsAdmin =
        review_promotions-IsAdmin (record (around.desk) { now = around.tick.now })
          (record (around.reviewing) { ledger = l })

  wired-IsSoundHooks :
      (turns : List (Surroundings F))
      → All (λ (r : Round F). IsSoundHooks r.hooks) (map wired turns)
  wired-IsSoundHooks [] = tt
  wired-IsSoundHooks (around ∷ turns) = (
    record {
      control = λ l. (control-IsAdmin around l).sound;
      propose = λ l. (propose-IsAdmin around l).sound;
      review = λ l. (review-IsAdmin around l).sound;
    },
    wired-IsSoundHooks turns,
  )

  wired-IsTradeless :
      (turns : List (Surroundings F)) → All (λ (r : Round F). IsTradeless r.hooks) (map wired turns)
  wired-IsTradeless [] = tt
  wired-IsTradeless (around ∷ turns) = (
    record {
      control = λ l. (control-IsAdmin around l).same_trades;
      propose = λ l. (propose-IsAdmin around l).same_trades;
      review = λ l. (review-IsAdmin around l).same_trades;
    },
    wired-IsTradeless turns,
  )

  -- The loop with its collaborators: whatever requests, notices, vetoes and configuration files its
  -- turns meet, and whatever raises in them, a valid ledger of shadow trades at the reference stake
  -- stays one, and nothing of its history is lost.
  pub run_turns-wired :
      ⦃cal : Calendar F⦄
      → IsOrdered fl
      → (config : Config F) (timeout_sec : F) (turns : List (Surroundings F)) (s : LoopState F)
      → IsValid (book s)
      → AllShadow config.reference_stake_usd (book s)
      → let after = book (run_turns config timeout_sec (map wired turns) s).1 in
        IsValid after × Extends (book s) after × AllShadow config.reference_stake_usd after
  run_turns-wired laws config timeout_sec turns s valid in_shadow =
      let (kept, longer) =
        run_turns-IsValid config timeout_sec (map wired turns) s (wired-IsSoundHooks turns) valid in
      (
        kept,
        longer,
        run_turns-AllShadow laws config timeout_sec (map wired turns) s (wired-IsTradeless turns)
            in_shadow,
      )
