-- ===== src/Examples/ControlTests.antt =====
-- The allocation requests of engine/control.py on concrete files.
use i_am_not_a_trader_bot.Prelude.{String, none, some, List, [], ◌∷◌, ◌≡◌, refl, map, ◌++◌}
use i_am_not_a_trader_bot.Prelude.Result.{ok, err, value_error}
use i_am_not_a_trader_bot.Float.Micros.{ℤ, micros}
use i_am_not_a_trader_bot.Config.{Config}
use i_am_not_a_trader_bot.Config.Validation.{
  check_config, check_risk, check_gate, check_kill, check_variant, check_variants,
}
use i_am_not_a_trader_bot.Control.{
  Content, holds, unreadable, raises, Request, asks, not_object, number, text, ControlState,
  validate_allocation_request, process_request, process_allocations,
}
use i_am_not_a_trader_bot.Control.Funding.{Funded}
use i_am_not_a_trader_bot.Control.Trail.{Audits, name_of}
use i_am_not_a_trader_bot.Control.Allocations.{process_allocations-Reallocates}
use i_am_not_a_trader_bot.Prelude.{true, false}
use i_am_not_a_trader_bot.Prelude.Texts.{after, cut}
use i_am_not_a_trader_bot.Config.Rules.{rules_block, rules_hash}
use i_am_not_a_trader_bot.Control.Lessons.{
  block_of, strip_processor_todo, validate_append, append_block, process_append, process_appends,
  process_control_files,
}
use i_am_not_a_trader_bot.Control.Replays.{append_block_replayed}
use i_am_not_a_trader_bot.Control.Handled.{HasRules}
use i_am_not_a_trader_bot.Control.Passes.{
  process_control_files-KeepsRules, process_control_files-Audits,
}
use i_am_not_a_trader_bot.Ledger.{empty_ledger, lesson_appended}
use i_am_not_a_trader_bot.Examples.{now, cents, config, funded, fade}

-- The first variant is live.
abbrev live_config : Config ℤ
live_config = record config { variants = funded ∷ fade ∷ [] }

abbrev files : List (String × Content (Request ℤ))
files =
    ("a.json", holds (asks (some (text "momentum-1")) (some (number (cents 20000)))))
    ∷ ("b.json", holds (asks (some (text "fade-1")) (some (number (cents 100)))))
    ∷ ("c.json", holds (asks (some (text "momentum-1")) (some (number (cents 60000)))))
    ∷ ("d.json", holds not_object)
    ∷ ("e.json", unreadable)
    ∷ []

abbrev start : ControlState ℤ
start = record {
  strategy = none;
  file = some live_config;
  ledger = empty_ledger;
  processed = [];
  rejected = [];
}

loads : check_config live_config ≡ ok tt
unfolding check_config check_risk check_gate check_kill check_variant check_variants
loads = refl

-- One is granted; a shadow variant, more than the bankroll, a list and a text are not.
sorted :
    ((process_allocations files now start).1.processed ≡ "a.json" ∷ [])
    × ((process_allocations files now start).1.rejected
        ≡ "b.json" ∷ "c.json" ∷ "d.json" ∷ "e.json" ∷ [])
unfolding process_allocations process_request validate_allocation_request check_config check_risk
    check_gate check_kill check_variant check_variants
sorted = (refl, refl)

process_allocations-Reallocates_example :
    (d : Config ℤ) × ((process_allocations files now start).1.file ≡ some d)
    × (check_config d ≡ ok tt)
    × (d ≡ record live_config { variants = d.variants })
    × Funded live_config.bankroll_usd live_config.variants d.variants
process_allocations-Reallocates_example =
    process_allocations-Reallocates files now start live_config refl loads

abbrev strategy_md : String
strategy_md = "# Bot\n<!-- rules:begin -->\nno trades\n<!-- rules:end -->\n\n## Lessons Learned\n\n"

-- The hash is the text itself, and every day is the same.
abbrev same : String → String
same t = t

abbrev day : ℤ → String
day t = "2026-07-15"

abbrev block : String
block = block_of "2026-07-15" "b.md" "\n<!-- TODO(U10): append -->\nBuy low.  \n"

todo_dropped : block ≡ "### 2026-07-15 (b.md)\n\nBuy low.\n"
unfolding strip_processor_todo after cut
todo_dropped = refl

abbrev ruled : ControlState ℤ
ruled = record start { strategy = some strategy_md }

-- A blank lesson, one with a mark, one that cannot be read, and a good one.
abbrev lessons : List (String × Content String)
lessons =
    ("a.md", holds " \n")
    ∷ ("b.md", holds "Buy low.")
    ∷ ("c.md", holds "x <!-- rules:end --> y")
    ∷ ("d.md", unreadable)
    ∷ []

appended :
    ((process_appends same day now lesson_appended lessons ruled).1.processed ≡ "b.md" ∷ [])
    × ((process_appends same day now lesson_appended lessons ruled).1.rejected
        ≡ "a.md" ∷ "c.md" ∷ "d.md" ∷ [])
    × ((process_appends same day now lesson_appended lessons ruled).1.strategy
        ≡ some
            "# Bot\n<!-- rules:begin -->\nno trades\n<!-- rules:end -->\n\n## Lessons Learned\n\n### 2026-07-15 (b.md)\n\nBuy low.\n")
unfolding process_appends process_append validate_append append_block rules_hash rules_block
    strip_processor_todo after cut
appended = (refl, refl, refl)

section : rules_block strategy_md ≡ some "\nno trades\n"
unfolding rules_block cut after
section = refl

process_control_files-KeepsRules_example :
    HasRules "\nno trades\n" (process_control_files same day now lessons [] files ruled).1
process_control_files-KeepsRules_example =
    process_control_files-KeepsRules same day now lessons [] files ruled "\nno trades\n"
      (strategy_md, refl, section)

process_control_files-Audits_example :
    Audits
      (map name_of lessons ++ ([] ++ map name_of files))
      ruled
      (process_control_files same day now lessons [] files ruled)
process_control_files-Audits_example =
    process_control_files-Audits same day now lessons [] files ruled (tt, (tt, (tt, (tt, tt)))) tt
      (tt, (tt, (tt, (tt, (tt, tt)))))

-- A content that raises another exception ends the pass where it is.
ends_at_fault :
    process_control_files same day now lessons (("e.md", raises value_error) ∷ []) files ruled
    ≡ (err value_error, (process_appends same day now lesson_appended lessons ruled).1)
unfolding process_control_files process_append process_appends validate_append append_block
    rules_hash rules_block strip_processor_todo after cut
ends_at_fault = refl

first_append : (append_block same block ruled).0 ≡ ok true
unfolding append_block rules_hash rules_block strip_processor_todo after cut
first_append = refl

append_block_replayed_example :
    append_block same block (append_block same block ruled).1
    ≡ (ok false, (append_block same block ruled).1)
append_block_replayed_example = append_block_replayed same block ruled true first_append
