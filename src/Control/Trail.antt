-- ===== src/Control/Trail.antt =====
-- What the processing of request files leaves: an event for each file, and its place in the archives.
use mathlib.Core.List.{append-nil, append_assoc}
use i_am_not_a_trader_bot.Prelude.{
  ◌≡◌, refl, sym, ap, ◌∙◌, String, Bool, true, false, Option, none, some, List, [], ◌∷◌, ◌++◌, map,
  arith, if◌then◌else◌,
}
use i_am_not_a_trader_bot.Prelude.Result.{Result, ok, err}
use i_am_not_a_trader_bot.Prelude.Py.{Exec, continue}
use i_am_not_a_trader_bot.Config.{Config}
use i_am_not_a_trader_bot.Ledger.{
  Ledger, RiskEvent, RiskRow, next_id, record_risk_event, control_rejected, control_error,
  lesson_appended, promotion_prose_appended, allocation_applied,
}
use i_am_not_a_trader_bot.Control.{Content, unreadable, holds, raises, ControlState}

-- Reading the file brings a content, or an exception that the processor catches.
abbrev pub IsCaught : {A : Type 0} → Content A → Type 0
IsCaught unreadable = Unit
IsCaught (holds a) = Unit
IsCaught (raises e) = ⊥

abbrev pub name_of : {A : Type 0} → String × Content A → String
name_of (name, content) = name

abbrev pub as_list : Option String → List String
as_list none = []
as_list (some name) = name ∷ []

map-append : {A B : Type 0} (f : A → B) (xs ys : List A) → map f (xs ++ ys) ≡ map f xs ++ map f ys
map-append f [] ys = refl
map-append f (x ∷ xs) ys = ap (λ t. f x ∷ t) (map-append f xs ys)

module _ {F : Type 0} where
  -- The request file that an event of the processor is about.
  abbrev pub file_of : RiskEvent F → Option String
  file_of (control_rejected name) = some name
  file_of (control_error name) = some name
  file_of (lesson_appended name) = some name
  file_of (promotion_prose_appended name) = some name
  file_of (allocation_applied name id a) = some name
  file_of _ = none

  abbrev pub is_applied : RiskEvent F → Bool
  is_applied (lesson_appended name) = true
  is_applied (promotion_prose_appended name) = true
  is_applied (allocation_applied name id a) = true
  is_applied _ = false

  abbrev pub is_rejection : RiskEvent F → Bool
  is_rejection (control_rejected name) = true
  is_rejection _ = false

  -- The files of the events that meet a test.
  abbrev pub files_of : (RiskEvent F → Bool) → List (RiskRow F) → List String
  files_of p [] = []
  files_of p (r ∷ rs) = (if p r.event then as_list (file_of r.event) else []) ++ files_of p rs

  files_of-append :
      (p : RiskEvent F → Bool) (rs qs : List (RiskRow F))
      → files_of p (rs ++ qs) ≡ files_of p rs ++ files_of p qs
  files_of-append p [] qs = refl
  files_of-append p (r ∷ rs) qs =
      let here = if p r.event then as_list (file_of r.event) else [] in
      ap (λ t. here ++ t) (files_of-append p rs qs)
      ∙ sym (append_assoc here (files_of p rs) (files_of p qs))

  -- The call returns. It has appended one risk event for each of the files, in their order, each
  -- about its file; the files of the applied ones are archived as processed, and those of the
  -- rejections as rejected.
  pub record Audits (names : List String) (s : ControlState F)
      (after : Result (Unit {0}) × ControlState F) : Type 0 where
    pub returns : after.0 ≡ ok tt
    pub rows : List (RiskRow F)
    pub events : after.1.ledger.risk_events ≡ s.ledger.risk_events ++ rows
    pub about : map (λ (r : RiskRow F). file_of r.event) rows ≡ map some names
    pub processed : after.1.processed ≡ s.processed ++ files_of is_applied rows
    pub rejected : after.1.rejected ≡ s.rejected ++ files_of is_rejection rows

  pub Audits-refl : (s : ControlState F) → Audits [] s (ok tt, s)
  Audits-refl s = record {
    returns = refl;
    rows = [];
    events = sym (append-nil s.ledger.risk_events);
    about = refl;
    processed = sym (append-nil s.processed);
    rejected = sym (append-nil s.rejected);
  }

  -- One call after another.
  pub Audits->> :
      (xs ys : List String) (s : ControlState F) (r : Result (Unit {0})) (t : ControlState F)
      (m : Exec (ControlState F) (Unit {0}))
      → Audits xs s (r, t)
      → Audits ys t (m t)
      → Audits (xs ++ ys) s (continue r (λ _. m) t)
  Audits->> xs ys s (err e) t m a b = absurd (ground (arith, a.returns))
  Audits->> xs ys s (ok tt) t m a b = record {
    returns = b.returns;
    rows = a.rows ++ b.rows;
    events = b.events ∙ rw a.events (append_assoc s.ledger.risk_events a.rows b.rows);
    about =
        map-append (λ (r : RiskRow F). file_of r.event) a.rows b.rows
        ∙ rw (a.about, b.about) (sym (map-append some xs ys));
    processed =
        b.processed
        ∙ rw (a.processed, files_of-append is_applied a.rows b.rows)
            (append_assoc s.processed (files_of is_applied a.rows) (files_of is_applied b.rows));
    rejected =
        b.rejected
        ∙ rw (a.rejected, files_of-append is_rejection a.rows b.rows)
            (append_assoc s.rejected (files_of is_rejection a.rows) (files_of is_rejection b.rows));
  }

module _ {F : Type 0} (name : String) (now : F) (s : ControlState F) where
  -- The ledger with the event.
  abbrev pub noted : RiskEvent F → Ledger F
  noted event = (record_risk_event now event s.ledger).1

  row_of : RiskEvent F → RiskRow F
  row_of event = record {
    id = next_id (λ (r : RiskRow F). r.id) s.ledger.risk_events;
    ts = now;
    event = event;
  }

  pub rejected-Audits : Audits (name ∷ []) s (
    ok tt,
    record s { rejected = s.rejected ++ name ∷ []; ledger = noted (control_rejected name) },
  )
  unfolding record_risk_event row_of
  rejected-Audits = record {
    returns = refl;
    rows = row_of (control_rejected name) ∷ [];
    events = refl;
    about = refl;
    processed = sym (append-nil s.processed);
    rejected = refl;
  }

  pub deferred-Audits :
      Audits (name ∷ []) s (ok tt, record s { ledger = noted (control_error name) })
  unfolding record_risk_event row_of
  deferred-Audits = record {
    returns = refl;
    rows = row_of (control_error name) ∷ [];
    events = refl;
    about = refl;
    processed = sym (append-nil s.processed);
    rejected = sym (append-nil s.rejected);
  }

  -- An event of an application.
  pub record IsApplication (event : RiskEvent F) : Type 0 where
    pub file : file_of event ≡ some name
    pub applied : is_applied event ≡ true
    pub accepted : is_rejection event ≡ false

  pub applied-Audits :
      (event : RiskEvent F) (file : Option (Config F)) (strategy : Option String)
      → IsApplication event
      → Audits (name ∷ []) s (
        ok tt,
        record s {
          file = file;
          strategy = strategy;
          processed = s.processed ++ name ∷ [];
          ledger = noted event;
        },
      )
  unfolding record_risk_event row_of
  applied-Audits event file strategy h = record {
    returns = refl;
    rows = row_of event ∷ [];
    events = refl;
    about = rw h.file refl;
    processed = rw (h.applied, h.file) refl;
    rejected = rw h.accepted (sym (append-nil s.rejected));
  }
