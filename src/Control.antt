-- ===== src/Control.antt =====
-- engine/control.py: the allocation requests that agents drop into runtime/control, and their
-- effect on the configuration file. A file of a request directory is its name and its content.
-- Lessons has the appends to STRATEGY.md.
pub mod Funding
pub mod Allocations
pub mod Trail
pub mod Audit
pub mod Lessons
pub mod Rules
pub mod Replays
pub mod Handled
pub mod Passes
use i_am_not_a_trader_bot.Prelude.{
  String, Bool, true, false, not, ◌&&◌, Option, none, some, List, [], ◌∷◌, ◌++◌, if◌then◌else◌,
  str_eq,
}
use i_am_not_a_trader_bot.Prelude.Result.{Error, Result, ok, err, config_error, map_ok}
use i_am_not_a_trader_bot.Prelude.Py.{Exec, pure, modify, ◌>>=◌, ◌>>◌}
use i_am_not_a_trader_bot.Float.{Float, ◌≼◌, nought}
use i_am_not_a_trader_bot.Config.{Config, Variant, Status, find_variant}
use i_am_not_a_trader_bot.Config.Validation.{load}
use i_am_not_a_trader_bot.Ledger.{
  Ledger, RiskEvent, record_risk_event, control_rejected, control_error, allocation_applied,
}

-- What reading a file brings: an exception that the processor catches (OSError, or the
-- JSONDecodeError of a request), a content, or another exception (a text that is not UTF-8, a JSON
-- integer of thousands of digits, a nesting that is too deep).
pub data Content (A : Type 0) : Type 0 where
  unreadable : Content A
  holds : A → Content A
  raises : Error → Content A

-- A value of a JSON object; the code treats booleans, null, lists and objects alike.
pub data JsonValue (F : Type 0) : Type 0 where
  number : F → JsonValue F
  text : String → JsonValue F
  other_json : JsonValue F

-- The JSON of a request file: what `variant_id` and `allocation_usd` get, if it is an object.
pub data Request (F : Type 0) : Type 0 where
  not_object : Request F
  asks : Option (JsonValue F) → Option (JsonValue F) → Request F

pub data Refusal : Type 0 where
  not_a_json_object missing_or_invalid_variant_id missing_or_invalid_allocation_usd : Refusal
  unknown_variant variant_status_not_fundable allocation_out_of_range : Refusal

pub data Checked (F : Type 0) : Type 0 where
  refused : Refusal → Checked F
  granted : String → F → Checked F

-- STRATEGY.md (none where it cannot be read), the configuration file (none where its fields or
-- their types are wrong), the ledger, and the names of the files that are archived as processed and
-- as rejected.
pub record ControlState (F : Type 0) : Type 0 where
  pub strategy : Option String
  pub file : Option (Config F)
  pub ledger : Ledger F
  pub processed : List String
  pub rejected : List String

-- FUNDABLE_STATUSES
abbrev pub is_fundable_status : Status → Bool
is_fundable_status Status.live = true
is_fundable_status Status.pending_promotion = true
is_fundable_status Status.shadow = false
is_fundable_status Status.retired = false

module _ {F : Type 0} ⦃fl : Float F⦄ where
  abbrev pub check_amount : Config F → Variant F → String → F → Checked F
  check_amount config variant variant_id allocation =
      if not (is_fundable_status variant.status)
      then refused variant_status_not_fundable
      else if not (nought ≼ allocation && allocation ≼ config.bankroll_usd)
      then refused allocation_out_of_range
      else granted variant_id allocation

  abbrev pub check_known : Config F → String → F → Option (Variant F) → Checked F
  check_known config variant_id allocation none = refused unknown_variant
  check_known config variant_id allocation (some variant) =
      check_amount config variant variant_id allocation

  abbrev pub check_allocation : Config F → String → Option (JsonValue F) → Checked F
  check_allocation config variant_id (some (number allocation)) =
      check_known config variant_id allocation (find_variant variant_id config.variants)
  check_allocation config variant_id (some (text _)) = refused missing_or_invalid_allocation_usd
  check_allocation config variant_id (some other_json) = refused missing_or_invalid_allocation_usd
  check_allocation config variant_id none = refused missing_or_invalid_allocation_usd

  unfoldable pub validate_allocation_request : Request F → Config F → Checked F
  validate_allocation_request not_object config = refused not_a_json_object
  validate_allocation_request (asks (some (text variant_id)) allocation) config =
      if str_eq variant_id ""
      then refused missing_or_invalid_variant_id
      else check_allocation config variant_id allocation
  validate_allocation_request (asks (some (number _)) _) config =
      refused missing_or_invalid_variant_id
  validate_allocation_request (asks (some other_json) _) config =
      refused missing_or_invalid_variant_id
  validate_allocation_request (asks none _) config = refused missing_or_invalid_variant_id

  abbrev pub log_event : F → RiskEvent F → Exec (ControlState F) (Unit {0})
  log_event now e s = (ok tt, record s { ledger = (record_risk_event now e s.ledger).1 })

  abbrev pub reject_file : String → F → Exec (ControlState F) (Unit {0})
  reject_file name now = do
    modify (λ (s : ControlState F). record s { rejected = s.rejected ++ name ∷ [] })
    log_event now (control_rejected name)

  -- `variant["allocation_usd"] = allocation` for each variant of the raw document with the id.
  abbrev pub allocate : String → F → List (Variant F) → List (Variant F)
  allocate variant_id allocation [] = []
  allocate variant_id allocation (v ∷ vs) =
      (if str_eq v.id variant_id then record v { allocation_usd = allocation } else v)
      ∷ allocate variant_id allocation vs

  -- The original text comes back where the new one does not load.
  abbrev pub kept_or_restored :
      Option (Config F) → ControlState F → Result (Config F) → Result (Unit {0}) × ControlState F
  kept_or_restored original written (ok _) = (ok tt, written)
  kept_or_restored original written (err e) = (err e, record written { file = original })

  abbrev pub write_raw_config : Config F → Exec (ControlState F) (Unit {0})
  write_raw_config raw s = kept_or_restored s.file (record s { file = some raw }) (load (some raw))

  abbrev pub settle_write :
      String
      → String
      → F
      → F
      → Result (Unit {0}) × ControlState F
      → Result (Unit {0}) × ControlState F
  settle_write name variant_id allocation now (err e, s) = log_event now (control_error name) s
  settle_write name variant_id allocation now (ok _, s) =
      (do
        modify (λ (s : ControlState F). record s { processed = s.processed ++ name ∷ [] })
        log_event now (allocation_applied name variant_id allocation))
        s

  abbrev pub apply_checked : String → Config F → F → Checked F → Exec (ControlState F) (Unit {0})
  apply_checked name config now (refused reason) s = reject_file name now s
  apply_checked name config now (granted variant_id allocation) s =
      settle_write name variant_id allocation now (
        write_raw_config
          (record config { variants = allocate variant_id allocation config.variants }) s)

  abbrev pub apply_loaded :
      String → Request F → F → Result (Config F) → Exec (ControlState F) (Unit {0})
  apply_loaded name request now (err e) = log_event now (control_error name)
  apply_loaded name request now (ok config) =
      apply_checked name config now (validate_allocation_request request config)

  unfoldable pub process_request :
      String → Content (Request F) → F → Exec (ControlState F) (Unit {0})
  process_request name unreadable now s = reject_file name now s
  process_request name (raises e) now s = (err e, s)
  process_request name (holds request) now s = apply_loaded name request now (load s.file) s

  -- The request files in the order of their names.
  unfoldable pub process_allocations :
      List (String × Content (Request F)) → F → Exec (ControlState F) (Unit {0})
  process_allocations [] now = pure tt
  process_allocations ((name, request) ∷ rest) now = do
    process_request name request now
    process_allocations rest now
