-- ===== src/Control/Handled.antt =====
-- The append requests of one directory.
use i_am_not_a_trader_bot.Prelude.{
  String, Bool, ◌≡◌, refl, Option, none, some, List, [], ◌∷◌, All, map, arith,
}
use i_am_not_a_trader_bot.Prelude.Result.{Result}
use i_am_not_a_trader_bot.Prelude.Keeps.{Keeps, Keeps->>=}
use i_am_not_a_trader_bot.Float.{Float}
use i_am_not_a_trader_bot.Config.Rules.{rules_block}
use i_am_not_a_trader_bot.Ledger.{RiskEvent, control_rejected, control_error}
use i_am_not_a_trader_bot.Ledger.Admin.{
  IsAdmin, IsAdmin-refl, IsAdmin-trans, record_risk_event-IsAdmin,
}
use i_am_not_a_trader_bot.Control.{ControlState, Content, unreadable, holds, raises}
use i_am_not_a_trader_bot.Control.Trail.{
  IsCaught, name_of, Audits, Audits-refl, Audits->>, IsApplication, rejected-Audits,
  deferred-Audits, applied-Audits,
}
use i_am_not_a_trader_bot.Control.Lessons.{
  AppendRefusal, validate_append, settle_append, append_valid, process_append, process_appends,
  grown, append_block, block_of,
}
use i_am_not_a_trader_bot.Control.Rules.{rules_block-grown}
use i_am_not_a_trader_bot.Control.Replays.{Appends, faults, stays, adds, append_block-Appends}

module _ {F : Type 0} where
  -- STRATEGY.md has this rules section.
  abbrev pub HasRules : String → ControlState F → Type 0
  HasRules rules s = (text : String) × (s.strategy ≡ some text) × (rules_block text ≡ some rules)

  abbrev pub KeepsRules : ControlState F → ControlState F → Type 0
  KeepsRules s t = (rules : String) → HasRules rules s → HasRules rules t

module _ {F : Type 0} ⦃fl : Float F⦄ (sha256 : String → String) (date : F → String) (now : F)
    (kind : String → RiskEvent F) where
  -- The directory's event is one of an application.
  abbrev pub IsKind : Type 0
  IsKind = (name : String) (s : ControlState F) → IsApplication name now s (kind name)

  -- The request has got its risk event and its place, if the events of the directory are those of
  -- an application; the rules section is the same, and so is the rest of the ledger.
  record IsHandled (name : String) (s : ControlState F) (after : Result (Unit {0}) × ControlState F)
      : Type 0 where
    audits : IsKind → Audits (name ∷ []) s after
    keeps_rules : KeepsRules s after.1
    admin : IsAdmin s.ledger after.1.ledger

  settle_append-IsHandled :
      (name block : String) (s : ControlState F) (after : Result Bool × ControlState F)
      → Appends sha256 block s after
      → IsHandled name s (settle_append sha256 date now kind name after)
  settle_append-IsHandled name block s _ (faults e fault) = rw fault (record {
    audits = λ _. deferred-Audits name now s;
    keeps_rules = λ rules h. h;
    admin = record_risk_event-IsAdmin now (control_error name) s.ledger;
  })
  settle_append-IsHandled name block s _
        (stays text before below rules there ruled at headed found) =
      record {
        audits =
            λ is_kind. applied-Audits name now s (kind name) s.file s.strategy (is_kind name s);
        keeps_rules = λ rules h. h;
        admin = record_risk_event-IsAdmin now (kind name) s.ledger;
      }
  settle_append-IsHandled name block s _ (adds text before below rules there ruled at headed) =
      record {
        audits = λ is_kind.
            applied-Audits name now s (kind name) s.file (some (grown text block)) (is_kind name s);
        keeps_rules = λ kept h. (
          grown text block,
          refl,
          rules_block-grown text block kept (ground (arith, h.1, h.2, there)),
        );
        admin = record_risk_event-IsAdmin now (kind name) s.ledger;
      }

  append_valid-IsHandled :
      (name content : String) (s : ControlState F) (o : Option AppendRefusal)
      → IsHandled name s (append_valid sha256 date now kind name content o s)
  append_valid-IsHandled name content s (some reason) = record {
    audits = λ _. rejected-Audits name now s;
    keeps_rules = λ rules h. h;
    admin = record_risk_event-IsAdmin now (control_rejected name) s.ledger;
  }
  append_valid-IsHandled name content s none =
      let block = block_of (date now) name content in
      settle_append-IsHandled name block s (append_block sha256 block s)
        (append_block-Appends sha256 block s)

  process_append-IsHandled :
      (name : String) (content : Content String) (s : ControlState F)
      → IsCaught content
      → IsHandled name s (process_append sha256 date now kind name content s)
  unfolding process_append
  process_append-IsHandled name unreadable s caught = record {
    audits = λ _. rejected-Audits name now s;
    keeps_rules = λ rules h. h;
    admin = record_risk_event-IsAdmin now (control_rejected name) s.ledger;
  }
  process_append-IsHandled name (holds content) s caught =
      append_valid-IsHandled name content s (validate_append content)
  process_append-IsHandled name (raises e) s caught = absurd caught

  process_append-KeepsRules :
      (name : String) (content : Content String) (s : ControlState F)
      → KeepsRules s (process_append sha256 date now kind name content s).1
  unfolding process_append
  process_append-KeepsRules name unreadable s = λ rules h. h
  process_append-KeepsRules name (holds content) s =
      (append_valid-IsHandled name content s (validate_append content)).keeps_rules
  process_append-KeepsRules name (raises e) s = λ rules h. h

  process_append-IsAdmin :
      (name : String) (content : Content String) (s : ControlState F)
      → IsAdmin s.ledger (process_append sha256 date now kind name content s).1.ledger
  unfolding process_append
  process_append-IsAdmin name unreadable s =
      record_risk_event-IsAdmin now (control_rejected name) s.ledger
  process_append-IsAdmin name (holds content) s =
      (append_valid-IsHandled name content s (validate_append content)).admin
  process_append-IsAdmin name (raises e) s = IsAdmin-refl s.ledger

  pub process_appends-Audits :
      IsKind
      → (files : List (String × Content String)) (s : ControlState F)
      → All (λ (f : String × Content String). IsCaught f.1) files
      → Audits (map name_of files) s (process_appends sha256 date now kind files s)
  unfolding process_appends
  process_appends-Audits is_kind [] s caught = Audits-refl s
  process_appends-Audits is_kind ((name, content) ∷ rest) s caught =
      let first = process_append sha256 date now kind name content s in
      Audits->> (name ∷ []) (map name_of rest) s first.0 first.1
        (process_appends sha256 date now kind rest)
        ((process_append-IsHandled name content s caught.0).audits is_kind)
        (process_appends-Audits is_kind rest first.1 caught.1)

  pub process_appends-KeepsRules :
      (files : List (String × Content String))
      → Keeps KeepsRules (process_appends sha256 date now kind files)
  unfolding process_appends
  process_appends-KeepsRules [] s = λ rules h. h
  process_appends-KeepsRules ((name, content) ∷ rest) s =
      Keeps->>= KeepsRules (process_append sha256 date now kind name content) _
        (λ s t u p q rules h. q rules (p rules h)) (λ t. process_append-KeepsRules name content t)
        (λ _. process_appends-KeepsRules rest) s

  pub process_appends-IsAdmin :
      (files : List (String × Content String)) (s : ControlState F)
      → IsAdmin s.ledger (process_appends sha256 date now kind files s).1.ledger
  unfolding process_appends
  process_appends-IsAdmin [] s = IsAdmin-refl s.ledger
  process_appends-IsAdmin ((name, content) ∷ rest) s =
      Keeps->>= (λ (t u : ControlState F). IsAdmin t.ledger u.ledger)
        (process_append sha256 date now kind name content) _
        (λ t u v. IsAdmin-trans t.ledger u.ledger v.ledger) (process_append-IsAdmin name content)
        (λ _. process_appends-IsAdmin rest) s
