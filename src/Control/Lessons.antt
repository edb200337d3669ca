-- ===== src/Control/Lessons.antt =====
-- engine/control.py: the appends to STRATEGY.md, of approved lessons and of promotion prose, and a
-- pass over the three request directories. SHA-256 and the date of a time are parameters.
use i_am_not_a_trader_bot.Prelude.{
  ℕ, String, Bool, true, false, ◌||◌, Option, none, some, List, [], ◌∷◌, ◌++◌, leb, ◌==◌,
  if◌then◌else◌, str_eq,
}
use i_am_not_a_trader_bot.Prelude.Result.{Error, Result, ok, err}
use i_am_not_a_trader_bot.Prelude.Py.{Exec, pure, raise, lift, gets_result, modify, ◌>>=◌, ◌>>◌}
use i_am_not_a_trader_bot.Prelude.Texts.{
  attach, after, cut, contains, size, is_newline, is_space, trim_start, trim_end,
}
use i_am_not_a_trader_bot.Float.{Float}
use i_am_not_a_trader_bot.Config.Rules.{begin_mark, end_mark, rules_hash}
use i_am_not_a_trader_bot.Ledger.{RiskEvent, lesson_appended, promotion_prose_appended}
use i_am_not_a_trader_bot.Control.{
  Content, unreadable, holds, raises, Request, ControlState, log_event, reject_file,
  process_allocations,
}

abbrev pub max_append_chars : ℕ
max_append_chars = 4000

abbrev pub lessons_heading : String
lessons_heading = "## Lessons Learned"

pub data AppendRefusal : Type 0 where
  empty too_long contains_rules_marker : AppendRefusal

-- `s.strip()`
abbrev pub strip : String → String
strip s = trim_end is_space (trim_start is_space s)

unfoldable pub validate_append : String → Option AppendRefusal
validate_append content =
    if size (strip content) == 0
    then some empty
    else if leb max_append_chars (size content)
    then some too_long
    else if contains begin_mark content || contains end_mark content
    then some contains_rules_marker
    else none

abbrev pub without_comment : String → Option String → Option (String × String) → String
without_comment content none end = content
without_comment content (some _) none = content
without_comment content (some _) (some (_, rest)) = trim_start is_newline rest

unfoldable pub strip_processor_todo : String → String
strip_processor_todo content =
    let stripped = trim_start is_space content in
    without_comment content (after "<!-- TODO(U10)" stripped) (cut "-->" stripped)

-- The dated block of a content.
abbrev pub block_of : String → String → String → String
block_of date source content = attach "### " (
    attach date (
      attach " ("
        (attach source (attach ")\n\n" (attach (strip (strip_processor_todo content)) "\n")))))

abbrev pub is_host_fault : Error → Bool
is_host_fault Error.control_error = true
is_host_fault Error.config_error = true
is_host_fault _ = false

abbrev pub readable : Option String → Result String
readable none = err Error.control_error
readable (some text) = ok text

-- `text.split(RULES_MARKERS[1], 1)[1]`
abbrev pub second_part : Option (String × String) → Result String
second_part none = err Error.index_error
second_part (some (_, rest)) = ok rest

abbrev pub heading_in : String → Result (Unit {0})
heading_in below = if contains lessons_heading below then ok tt else err Error.control_error

-- The text with a block at its end.
abbrev pub grown : String → String → String
grown text block = attach (trim_end is_newline text) (attach "\n\n" block)

module _ {F : Type 0} where
  abbrev pub write_strategy : String → Exec (ControlState F) (Unit {0})
  write_strategy text = modify (λ (s : ControlState F). record s { strategy = some text })

  module _ (sha256 : String → String) where
    -- The original comes back where the hash has changed.
    abbrev pub settle_hash : String → Bool → Exec (ControlState F) Bool
    settle_hash original true = pure true
    settle_hash original false = do write_strategy original; raise Error.control_error

    abbrev pub write_block : String → String → String → Exec (ControlState F) Bool
    write_block original hash_before block = do
      write_strategy (grown original block)
      text ← gets_result (λ (s : ControlState F). readable s.strategy)
      hash ← lift (rules_hash sha256 text)
      settle_hash original (str_eq hash hash_before)

    abbrev pub add_block : String → String → String → Bool → Exec (ControlState F) Bool
    add_block original hash_before block true = pure false
    add_block original hash_before block false = write_block original hash_before block

    -- Of a block, which depends on the date, the source and the content alone.
    unfoldable pub append_block : String → Exec (ControlState F) Bool
    append_block block = do
      original ← gets_result (λ (s : ControlState F). readable s.strategy)
      hash_before ← lift (rules_hash sha256 original)
      below ← lift (second_part (cut end_mark original))
      lift (heading_in below)
      add_block original hash_before block (contains block below)

    module _ ⦃fl : Float F⦄ (date : F → String) (now : F) where
      abbrev pub append_to_strategy : String → String → Exec (ControlState F) Bool
      append_to_strategy content source = append_block (block_of (date now) source content)

      -- A host fault leaves the request where it is.
      abbrev pub settle_append :
          (String → RiskEvent F)
          → String
          → Result Bool × ControlState F
          → Result (Unit {0}) × ControlState F
      settle_append kind name (ok _, s) =
          (do
            modify (λ (s : ControlState F). record s { processed = s.processed ++ name ∷ [] })
            log_event now (kind name))
            s
      settle_append kind name (err e, s) =
          if is_host_fault e then log_event now (RiskEvent.control_error name) s else (err e, s)

      abbrev pub append_valid :
          (String → RiskEvent F)
          → String
          → String
          → Option AppendRefusal
          → Exec (ControlState F) (Unit {0})
      append_valid kind name content (some reason) s = reject_file name now s
      append_valid kind name content none s =
          settle_append kind name (append_to_strategy content name s)

      unfoldable pub process_append :
          (String → RiskEvent F) → String → Content String → Exec (ControlState F) (Unit {0})
      process_append kind name unreadable = reject_file name now
      process_append kind name (raises e) = raise e
      process_append kind name (holds content) =
          append_valid kind name content (validate_append content)

      unfoldable pub process_appends :
          (String → RiskEvent F) → List (String × Content String) → Exec (ControlState F) (Unit {0})
      process_appends kind [] = pure tt
      process_appends kind ((name, content) ∷ rest) = do
        process_append kind name content
        process_appends kind rest

      -- One pass over the approved lessons, the pending appends and the allocation requests.
      unfoldable pub process_control_files :
          List (String × Content String)
          → List (String × Content String)
          → List (String × Content (Request F))
          → Exec (ControlState F) (Unit {0})
      process_control_files lessons prose requests = do
        process_appends lesson_appended lessons
        process_appends promotion_prose_appended prose
        process_allocations requests now
