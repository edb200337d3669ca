-- ===== src/Control/Passes.antt =====
-- A pass of the control processor over its three directories.
use i_am_not_a_trader_bot.Prelude.{String, ◌≡◌, refl, ◌∙◌, some, List, [], ◌∷◌, ◌++◌, map, All}
use i_am_not_a_trader_bot.Prelude.Result.{Result, ok, err}
use i_am_not_a_trader_bot.Prelude.Py.{◌>>◌}
use i_am_not_a_trader_bot.Prelude.Keeps.{Keeps, Keeps->>=}
use i_am_not_a_trader_bot.Float.{Float}
use i_am_not_a_trader_bot.Config.{Config}
use i_am_not_a_trader_bot.Config.Validation.{load}
use i_am_not_a_trader_bot.Ledger.{lesson_appended, promotion_prose_appended}
use i_am_not_a_trader_bot.Ledger.Admin.{IsAdmin, IsAdmin-trans}
use i_am_not_a_trader_bot.Control.{
  Content, unreadable, holds, raises, Request, Checked, refused, granted, ControlState, allocate,
  kept_or_restored, settle_write, apply_checked, apply_loaded, process_request, process_allocations,
  validate_allocation_request,
}
use i_am_not_a_trader_bot.Control.Trail.{Audits, Audits->>, IsCaught, name_of}
use i_am_not_a_trader_bot.Control.Audit.{process_allocations-Audits, process_allocations-IsAdmin}
use i_am_not_a_trader_bot.Control.Lessons.{process_appends, process_control_files}
use i_am_not_a_trader_bot.Control.Handled.{
  HasRules, KeepsRules, IsKind, process_appends-Audits, process_appends-KeepsRules,
  process_appends-IsAdmin,
}

-- The allocation requests leave STRATEGY.md alone.
module _ {F : Type 0} ⦃fl : Float F⦄ (now : F) (s : ControlState F) where
  settle_write-strategy :
      (name id : String) (a : F) (raw : Config F) (r : Result (Config F))
      → (settle_write name id a now
          (kept_or_restored s.file (record s { file = some raw }) r)).1.strategy
        ≡ s.strategy
  settle_write-strategy name id a raw (ok _) = refl
  settle_write-strategy name id a raw (err e) = refl

  apply_checked-strategy :
      (name : String) (c : Config F) (checked : Checked F)
      → (apply_checked name c now checked s).1.strategy ≡ s.strategy
  apply_checked-strategy name c (refused reason) = refl
  apply_checked-strategy name c (granted id a) =
      let raw = record c { variants = allocate id a c.variants } in
      settle_write-strategy name id a raw (load (some raw))

  apply_loaded-strategy :
      (name : String) (r : Request F) (loaded : Result (Config F))
      → (apply_loaded name r now loaded s).1.strategy ≡ s.strategy
  apply_loaded-strategy name r (err e) = refl
  apply_loaded-strategy name r (ok c) =
      apply_checked-strategy name c (validate_allocation_request r c)

  process_request-strategy :
      (name : String) (content : Content (Request F))
      → (process_request name content now s).1.strategy ≡ s.strategy
  unfolding process_request
  process_request-strategy name unreadable = refl
  process_request-strategy name (raises e) = refl
  process_request-strategy name (holds r) = apply_loaded-strategy name r (load s.file)

process_allocations-strategy :
    {F : Type 0} ⦃fl : Float F⦄ (files : List (String × Content (Request F))) (now : F)
    → Keeps (λ (s t : ControlState F). t.strategy ≡ s.strategy) (process_allocations files now)
unfolding process_allocations
process_allocations-strategy [] now s = refl
process_allocations-strategy {F} ((name, content) ∷ rest) now s =
    Keeps->>= (λ (s t : ControlState F). t.strategy ≡ s.strategy) (process_request name content now)
      _ (λ s t u p q. q ∙ p) (λ t. process_request-strategy now t name content)
      (λ _. process_allocations-strategy rest now) s

module _ {F : Type 0} ⦃fl : Float F⦄ (sha256 : String → String) (date : F → String) (now : F)
    (lessons prose : List (String × Content String))
    (requests : List (String × Content (Request F))) where
  lessons_IsKind : IsKind sha256 date now lesson_appended
  lessons_IsKind = λ name s. record { file = refl; applied = refl; accepted = refl }

  prose_IsKind : IsKind sha256 date now promotion_prose_appended
  prose_IsKind = λ name s. record { file = refl; applied = refl; accepted = refl }

  -- A pass over files each of which can be read and parsed, or fails to be with an exception that
  -- the processor catches, with a STRATEGY.md that is a text or cannot be read, and a configuration
  -- file that loads or is refused with a ConfigError, returns. It appends one risk event for each
  -- file, about this file, in the order of lessons, prose and requests, and no other event; the
  -- processed files it archives are those with an event of an application, the rejected files those
  -- with an event of a rejection, in the same order.
  pub process_control_files-Audits :
      (s : ControlState F)
      → All (λ (f : String × Content String). IsCaught f.1) lessons
      → All (λ (f : String × Content String). IsCaught f.1) prose
      → All (λ (f : String × Content (Request F)). IsCaught f.1) requests
      → Audits
          (map name_of lessons ++ (map name_of prose ++ map name_of requests))
          s
          (process_control_files sha256 date now lessons prose requests s)
  unfolding process_control_files
  process_control_files-Audits s caught_lessons caught_prose caught_requests =
      let first = process_appends sha256 date now lesson_appended lessons s in
      let second = process_appends sha256 date now promotion_prose_appended prose first.1 in
      Audits->> (map name_of lessons) (map name_of prose ++ map name_of requests) s first.0 first.1
        (process_appends sha256 date now promotion_prose_appended prose
          >> process_allocations requests now)
        (process_appends-Audits sha256 date now lesson_appended lessons_IsKind lessons s
          caught_lessons)
        (Audits->> (map name_of prose) (map name_of requests) first.1 second.0 second.1
          (process_allocations requests now)
          (process_appends-Audits sha256 date now promotion_prose_appended prose_IsKind prose
            first.1 caught_prose)
          (process_allocations-Audits requests now second.1 caught_requests))

  -- Where STRATEGY.md has a rules section, a pass leaves it with the same one, whatever lessons,
  -- prose and requests it finds.
  pub process_control_files-KeepsRules :
      (s : ControlState F) (rules : String)
      → HasRules rules s
      → HasRules rules (process_control_files sha256 date now lessons prose requests s).1
  unfolding process_control_files
  process_control_files-KeepsRules =
      Keeps->>= KeepsRules (process_appends sha256 date now lesson_appended lessons) _ trans
        (process_appends-KeepsRules sha256 date now lesson_appended lessons)
        (λ _.
          Keeps->>= KeepsRules (process_appends sha256 date now promotion_prose_appended prose) _
            trans (process_appends-KeepsRules sha256 date now promotion_prose_appended prose)
            (λ _ s rules h. (h.0, process_allocations-strategy requests now s ∙ h.1, h.2)))
    where
      trans : (s t u : ControlState F) → KeepsRules s t → KeepsRules t u → KeepsRules s u
      trans s t u p q rules h = q rules (p rules h)

  -- A pass adds risk events to the ledger, and nothing else.
  pub process_control_files-IsAdmin :
      (s : ControlState F)
      → IsAdmin s.ledger (process_control_files sha256 date now lessons prose requests s).1.ledger
  unfolding process_control_files
  process_control_files-IsAdmin =
      Keeps->>= R (process_appends sha256 date now lesson_appended lessons) _ trans
        (process_appends-IsAdmin sha256 date now lesson_appended lessons)
        (λ _.
          Keeps->>= R (process_appends sha256 date now promotion_prose_appended prose) _ trans
            (process_appends-IsAdmin sha256 date now promotion_prose_appended prose)
            (λ _. process_allocations-IsAdmin requests now))
    where
      R : ControlState F → ControlState F → Type 0
      R t u = IsAdmin t.ledger u.ledger

      trans : (s t u : ControlState F) → R s t → R t u → R s u
      trans s t u = IsAdmin-trans s.ledger t.ledger u.ledger
