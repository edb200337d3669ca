-- ===== src/Examples/EvolutionTests.antt =====
-- engine/evolution.py on a concrete configuration: a parent and one or two challengers.
use i_am_not_a_trader_bot.Prelude.{
  String, ℕ, ◌+◌, ◌≡◌, ◌≢◌, ◌⊎◌, refl, false, none, some, List, [], ◌∷◌, Each, any, str_eq, map,
}
use i_am_not_a_trader_bot.Report.{paired_comparison, bucket_pnl, overlap_diffs}
use i_am_not_a_trader_bot.Prelude.Texts.{after}
use i_am_not_a_trader_bot.Prelude.Result.{ok, err, value_error}
use i_am_not_a_trader_bot.Float.Micros.{ℤ, micros, micros-IsOrdered}
use i_am_not_a_trader_bot.Signals.{up}
use i_am_not_a_trader_bot.Config.{Config, Variant, Status, find_variant}
use i_am_not_a_trader_bot.Config.Validation.{
  check_config, check_risk, check_gate, check_kill, check_variant, check_variants, ids_of,
}
use i_am_not_a_trader_bot.Ledger.{empty_ledger, record_variant_event, realized_pnl_rows, pnl_rows}
use i_am_not_a_trader_bot.Ledger.Admin.{IsAdmin}
use i_am_not_a_trader_bot.Ledger.History.{Extends}
use i_am_not_a_trader_bot.Ledger.Validity.{IsValid, empty_ledger-IsValid}
use i_am_not_a_trader_bot.Executor.Shadow.{AllShadow}
use i_am_not_a_trader_bot.Evolution.{
  Files, Desk, Notice, NoticeFile, malformed, notice, number, Proposal, Resample, Split, entry_time,
  impulse_size, parent_of, number_of, read, print, digits, largest_taken, challenger_number,
  next_challenger_id, changed_keys, active_challengers, spawn_challenger, evaluate_split,
  review_promotions, review_all, advance_pending, promote, maybe_retire_champion, has_passed,
  allocation_of,
}
use i_am_not_a_trader_bot.Evolution.Machine.{Reaches}
use i_am_not_a_trader_bot.Evolution.Naming.{next_challenger_id-Names}
use i_am_not_a_trader_bot.Evolution.Spawns.{IsChallenger, with_child, spawn_challenger-IsChallenger}
use i_am_not_a_trader_bot.Evolution.Cases.{Proposes, Rejects, evaluate_split-Decides}
use i_am_not_a_trader_bot.Evolution.Refinement.{
  review_promotions-Refines, review_promotions_restores,
}
use i_am_not_a_trader_bot.Loop.{LoopState, run_turns}
use i_am_not_a_trader_bot.Loop.Sound.{book}
use i_am_not_a_trader_bot.Loop.Wiring.{Surroundings, wired, run_turns-wired}
use i_am_not_a_trader_bot.Control.{holds}
use i_am_not_a_trader_bot.Examples.{now, cents, seconds, config, momentum, snap, one_day, start}

-- A challenger's challenger belongs to the challenger, and a bare number is nobody's.
parents :
    (parent_of "momentum-1-c12" ≡ some "momentum-1")
    × (parent_of "m-c1-c2" ≡ some "m-c1")
    × (parent_of "momentum-1" ≡ none)
    × (parent_of "-c1" ≡ none)
unfolding parent_of after number_of read
parents = (refl, refl, refl, refl)

printed : (print 0 ≡ "0") × (print 907 ≡ "907")
unfolding print digits
printed = (refl, refl)

abbrev pending : Variant ℤ
pending = record momentum { id = "momentum-1-c1"; status = Status.pending_promotion }

abbrev family : Config ℤ
family = record config { variants = momentum ∷ pending ∷ [] }

named : ◌≢◌ {A = String} "momentum-1" ""
named = cc

next_challenger_id-Names_example :
    (parent_of (next_challenger_id family.variants "momentum-1") ≡ some "momentum-1")
    × (challenger_number "momentum-1" (next_challenger_id family.variants "momentum-1")
        ≡ some (largest_taken "momentum-1" family.variants + 1))
    × (any (str_eq (next_challenger_id family.variants "momentum-1")) (ids_of family.variants)
        ≡ false)
next_challenger_id-Names_example = next_challenger_id-Names family.variants "momentum-1" named

abbrev proposal : Proposal ℤ
proposal = record {
  parent_id = "momentum-1";
  dimension = impulse_size;
  params_diff = ("min_impulse_usd", seconds 30) ∷ [];
  detail = record {
    dimension = impulse_size;
    n_a = 30;
    n_b = 40;
    mean_diff = cents 50;
    ci = (cents 10, cents 90);
  };
}

abbrev files : Files ℤ
files = record {
  config_file = some config;
  ledger = empty_ledger;
  notices = [];
  appends = [];
  reviewed_n = [];
}

spawned : (spawn_challenger now proposal files).0 ≡ ok "momentum-1-c1"
unfolding spawn_challenger changed_keys active_challengers next_challenger_id challenger_number
    after number_of read print digits record_variant_event check_config check_risk check_gate
    check_kill check_variant check_variants
spawned = refl

spawn_challenger-IsChallenger_example :
    (parent : Variant ℤ) × (child : Variant ℤ) × (find_variant "momentum-1" config.variants
      ≡ some parent)
    × (child.id ≡ "momentum-1-c1")
    × IsChallenger config parent child
    × ((spawn_challenger now proposal files).1.config_file ≡ some (with_child config child))
spawn_challenger-IsChallenger_example =
    spawn_challenger-IsChallenger now proposal files config "momentum-1-c1" refl spawned

abbrev copies : ℕ → ℤ → List ℤ
copies Prim.Native.Nat.zero x = []
copies (Prim.Native.Nat.suc n) x = x ∷ copies n x

-- The interval is the first values of the two halves.
abbrev first_values : Resample ℤ
first_values (x ∷ a) (y ∷ b) level = (y, x)
first_values [] b level = (cents 0, cents 0)
first_values (x ∷ a) [] level = (cents 0, cents 0)

abbrev split : Split ℤ
split = record {
  dimension = entry_time;
  a = copies 20 (cents 200);
  b = copies 20 (cents 50);
  param_if_a_wins = some ("entry_window_sec_max", seconds 60);
  param_if_b_wins = some ("entry_window_sec_min", seconds 60);
}

evaluate_split-Decides_example :
    Proposes first_values now "momentum-1" momentum.params split files
      (evaluate_split first_values now "momentum-1" momentum.params split files)
    ⊎ Rejects first_values now "momentum-1" momentum.params split files
        (evaluate_split first_values now "momentum-1" momentum.params split files)
evaluate_split-Decides_example =
    evaluate_split-Decides first_values now "momentum-1" momentum.params split files

abbrev desk : Desk ℤ
desk = record {
  now = now;
  has_veto = λ id. false;
  bootstrap = λ xs level. none;
  parse_float = λ t. none;
  render = λ id parent n. ok "promoted";
}

-- Delivered, and its deadline has passed.
abbrev delivered : Notice ℤ
delivered = record {
  delivery_ack_ts = some (number (seconds 50));
  veto_deadline_ts = some (number (seconds 100));
  created_ts = some (number (seconds 40));
  proposed_allocation_usd = some (number (cents 10000));
}

abbrev with_notice : NoticeFile ℤ → Files ℤ
with_notice n = record files { config_file = some family; notices = ("momentum-1-c1", n) ∷ [] }

family_loads : check_config family ≡ ok tt
unfolding check_config check_risk check_gate check_kill check_variant check_variants
family_loads = refl

review_promotions-Refines_example :
    let after = (review_promotions desk (with_notice (notice delivered))).1 in
    (d : Config ℤ) × (after.config_file ≡ some d)
    × (check_config d ≡ ok tt)
    × (d ≡ record family { variants = d.variants })
    × Each (Reaches desk family (with_notice (notice delivered))) family.variants d.variants
    × IsAdmin empty_ledger after.ledger
review_promotions-Refines_example =
    review_promotions-Refines desk family (with_notice (notice delivered)) refl family_loads

-- The notice is delivered and its deadline is over: the challenger is live, its parent stays.
goes_live :
    (review_promotions desk (with_notice (notice delivered))).1.config_file
    ≡ some (record family {
      variants =
          momentum ∷ record pending { status = Status.live; allocation_usd = cents 10000 } ∷ [];
    })
unfolding review_promotions review_all advance_pending promote maybe_retire_champion
    paired_comparison bucket_pnl realized_pnl_rows pnl_rows overlap_diffs has_passed allocation_of
    parent_of after number_of read record_variant_event check_config check_risk check_gate
    check_kill check_variant check_variants
goes_live = refl

raised : (review_promotions desk (with_notice malformed)).0 ≡ err value_error
unfolding review_promotions review_all advance_pending parent_of after number_of read check_config
    check_risk check_gate check_kill check_variant check_variants
raised = refl

review_promotions_restores_example :
    (review_promotions desk (with_notice malformed)).1.config_file ≡ some family
review_promotions_restores_example =
    review_promotions_restores desk family (with_notice malformed) value_error refl family_loads
      raised

abbrev around : Surroundings ℤ
around = record {
  tick = record {
    now = now;
    stop = false;
    stop_for = λ id. false;
    market = ok (some snap);
    clock = now;
  };
  gamma = λ slug. some up;
  report = ok tt;
  export = ok tt;
  lessons = ("l.md", holds "Buy low.") ∷ [];
  prose = [];
  requests = [];
  controlled = record {
    strategy = none;
    file = some config;
    ledger = empty_ledger;
    processed = [];
    rejected = [];
  };
  sha256 = λ text. text;
  date = λ t. "2026-07-15";
  proposing = files;
  reviewing = with_notice (notice delivered);
  resample = first_values;
  desk = desk;
}

abbrev boot : LoopState ℤ
boot = record { world = start; last_bucket = none; last_status = none; last_evolution_ts = none }

run_turns-wired_example :
    let after = book (run_turns config (seconds 21600) (map wired (around ∷ around ∷ [])) boot).1 in
    IsValid after × Extends empty_ledger after × AllShadow (cents 500) after
run_turns-wired_example =
    run_turns-wired micros-IsOrdered config (seconds 21600) (around ∷ around ∷ []) boot
      empty_ledger-IsValid tt
