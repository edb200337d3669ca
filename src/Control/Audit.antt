-- ===== src/Control/Audit.antt =====
-- The allocation requests: what they leave in the ledger and in the archives.
use i_am_not_a_trader_bot.Prelude.{refl, String, some, List, [], ◌∷◌, map, All}
use i_am_not_a_trader_bot.Prelude.Result.{Result, ok, err}
use i_am_not_a_trader_bot.Prelude.Keeps.{Keeps->>=}
use i_am_not_a_trader_bot.Ledger.Admin.{
  IsAdmin, IsAdmin-refl, IsAdmin-trans, record_risk_event-IsAdmin,
}
use i_am_not_a_trader_bot.Config.Validation.{load}
use i_am_not_a_trader_bot.Float.{Float}
use i_am_not_a_trader_bot.Config.{Config}
use i_am_not_a_trader_bot.Ledger.{control_rejected, control_error, allocation_applied}
use i_am_not_a_trader_bot.Control.{
  Content, unreadable, holds, raises, Request, Checked, refused, granted, ControlState, allocate,
  validate_allocation_request, process_request, process_allocations, apply_checked, apply_loaded,
  kept_or_restored, settle_write,
}
use i_am_not_a_trader_bot.Control.Trail.{
  IsCaught, name_of, Audits, Audits-refl, Audits->>, rejected-Audits, deferred-Audits,
  applied-Audits,
}

module _ {F : Type 0} ⦃fl : Float F⦄ (name : String) (now : F) (s : ControlState F) where
  settle_write-Audits :
      (id : String) (a : F) (raw : Config F) (r : Result (Config F))
      → Audits
          (name ∷ [])
          s
          (settle_write name id a now (kept_or_restored s.file (record s { file = some raw }) r))
  settle_write-Audits id a raw (ok _) =
      applied-Audits name now s (allocation_applied name id a) (some raw) s.strategy
        (record { file = refl; applied = refl; accepted = refl })
  settle_write-Audits id a raw (err e) = deferred-Audits name now s

  apply_checked-Audits :
      (c : Config F) (checked : Checked F)
      → Audits (name ∷ []) s (apply_checked name c now checked s)
  apply_checked-Audits c (refused reason) = rejected-Audits name now s
  apply_checked-Audits c (granted id a) =
      let raw = record c { variants = allocate id a c.variants } in
      settle_write-Audits id a raw (load (some raw))

  apply_loaded-Audits :
      (r : Request F) (loaded : Result (Config F))
      → Audits (name ∷ []) s (apply_loaded name r now loaded s)
  apply_loaded-Audits r (err e) = deferred-Audits name now s
  apply_loaded-Audits r (ok c) = apply_checked-Audits c (validate_allocation_request r c)

  process_request-Audits :
      (content : Content (Request F))
      → IsCaught content
      → Audits (name ∷ []) s (process_request name content now s)
  unfolding process_request
  process_request-Audits unreadable caught = rejected-Audits name now s
  process_request-Audits (holds r) caught = apply_loaded-Audits r (load s.file)
  process_request-Audits (raises e) caught = absurd caught

  settle_write-IsAdmin :
      (id : String) (a : F) (raw : Config F) (r : Result (Config F))
      → IsAdmin s.ledger
          (settle_write name id a now
            (kept_or_restored s.file (record s { file = some raw }) r)).1.ledger
  settle_write-IsAdmin id a raw (ok _) =
      record_risk_event-IsAdmin now (allocation_applied name id a) s.ledger
  settle_write-IsAdmin id a raw (err e) =
      record_risk_event-IsAdmin now (control_error name) s.ledger

  apply_checked-IsAdmin :
      (c : Config F) (checked : Checked F)
      → IsAdmin s.ledger (apply_checked name c now checked s).1.ledger
  apply_checked-IsAdmin c (refused reason) =
      record_risk_event-IsAdmin now (control_rejected name) s.ledger
  apply_checked-IsAdmin c (granted id a) =
      let raw = record c { variants = allocate id a c.variants } in
      settle_write-IsAdmin id a raw (load (some raw))

  apply_loaded-IsAdmin :
      (r : Request F) (loaded : Result (Config F))
      → IsAdmin s.ledger (apply_loaded name r now loaded s).1.ledger
  apply_loaded-IsAdmin r (err e) = record_risk_event-IsAdmin now (control_error name) s.ledger
  apply_loaded-IsAdmin r (ok c) = apply_checked-IsAdmin c (validate_allocation_request r c)

  process_request-IsAdmin :
      (content : Content (Request F))
      → IsAdmin s.ledger (process_request name content now s).1.ledger
  unfolding process_request
  process_request-IsAdmin unreadable =
      record_risk_event-IsAdmin now (control_rejected name) s.ledger
  process_request-IsAdmin (holds r) = apply_loaded-IsAdmin r (load s.file)
  process_request-IsAdmin (raises e) = IsAdmin-refl s.ledger

module _ {F : Type 0} ⦃fl : Float F⦄ where
  pub process_allocations-Audits :
      (files : List (String × Content (Request F))) (now : F) (s : ControlState F)
      → All (λ (f : String × Content (Request F)). IsCaught f.1) files
      → Audits (map name_of files) s (process_allocations files now s)
  unfolding process_allocations
  process_allocations-Audits [] now s caught = Audits-refl s
  process_allocations-Audits ((name, content) ∷ rest) now s caught =
      let first = process_request name content now s in
      Audits->> (name ∷ []) (map name_of rest) s first.0 first.1 (process_allocations rest now)
        (process_request-Audits name now s content caught.0)
        (process_allocations-Audits rest now first.1 caught.1)

  -- The requests add risk events to the ledger, and nothing else.
  pub process_allocations-IsAdmin :
      (files : List (String × Content (Request F))) (now : F) (s : ControlState F)
      → IsAdmin s.ledger (process_allocations files now s).1.ledger
  unfolding process_allocations
  process_allocations-IsAdmin [] now s = IsAdmin-refl s.ledger
  process_allocations-IsAdmin ((name, content) ∷ rest) now s =
      Keeps->>= (λ (t u : ControlState F). IsAdmin t.ledger u.ledger)
        (process_request name content now) _ (λ t u v. IsAdmin-trans t.ledger u.ledger v.ledger)
        (λ t. process_request-IsAdmin name now t content)
        (λ _. process_allocations-IsAdmin rest now) s
