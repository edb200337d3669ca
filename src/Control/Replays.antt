-- ===== src/Control/Replays.antt =====
-- How an append to STRATEGY.md ends, and a second one with the same block.
use i_am_not_a_trader_bot.Prelude.{
  if◌then◌else◌, String, Bool, true, false, ◌≡◌, refl, sym, ap, ◌∙◌, Option, none, some, arith,
  eq_iff, Option-cases, inl, inr,
}
use i_am_not_a_trader_bot.Prelude.Result.{Error, Result, ok, err}
use i_am_not_a_trader_bot.Prelude.Texts.{attach, cut, is_cut, contains}
use i_am_not_a_trader_bot.Prelude.Cuts.{contains-cut, contains-attach, contains_end}
use i_am_not_a_trader_bot.Config.Rules.{
  begin_mark, end_mark, up_to, block_in, rules_block, rules_hash, hash_of,
}
use i_am_not_a_trader_bot.Prelude.Py.{continue, lift, ◌>>=◌, ◌>>◌}
use i_am_not_a_trader_bot.Control.{ControlState}
use i_am_not_a_trader_bot.Control.Lessons.{
  grown, lessons_heading, readable, second_part, heading_in, add_block, append_block, is_host_fault,
}
use i_am_not_a_trader_bot.Control.Rules.{grown-IsBelow, rules_block-grown}

attach_assoc : (s t u : String) → attach (attach s t) u ≡ attach s (attach t u)
attach_assoc String.[] t u = refl
attach_assoc (String.◌∷◌ c s) t u = ap (String.◌∷◌ c) (attach_assoc s t u)

module _ {F : Type 0} (sha256 : String → String) (block : String) (s : ControlState F) where
  -- How an append ends: a host fault, or the block is there, or it is written at the end of the
  -- text; only the last changes something.
  pub data Appends : Result Bool × ControlState F → Type 0 where
    faults : (e : Error) → is_host_fault e ≡ true → Appends (err e, s)
    stays :
        (text before below rules : String)
        → s.strategy ≡ some text
        → rules_block text ≡ some rules
        → cut end_mark text ≡ some (before, below)
        → contains lessons_heading below ≡ true
        → contains block below ≡ true
        → Appends (ok false, s)
    adds :
        (text before below rules : String)
        → s.strategy ≡ some text
        → rules_block text ≡ some rules
        → cut end_mark text ≡ some (before, below)
        → contains lessons_heading below ≡ true
        → Appends (ok true, record s { strategy = some (grown text block) })

  add_block-Appends :
      (text before below rules : String) (found : Bool)
      → s.strategy ≡ some text
      → rules_block text ≡ some rules
      → cut end_mark text ≡ some (before, below)
      → contains lessons_heading below ≡ true
      → contains block below ≡ found
      → Appends (add_block sha256 text (sha256 rules) block found s)
  unfolding rules_hash
  add_block-Appends text before below rules true there ruled at headed found =
      stays text before below rules there ruled at headed found
  add_block-Appends text before below rules false there ruled at headed found =
      rw (rules_block-grown text block rules ruled, (eq_iff (sha256 rules) (sha256 rules)).1 refl)
        (adds text before below rules there ruled at headed)

  heading_in-Appends :
      (text before below rules : String) (headed : Bool)
      → s.strategy ≡ some text
      → rules_block text ≡ some rules
      → cut end_mark text ≡ some (before, below)
      → contains lessons_heading below ≡ headed
      → Appends (
          continue
            (if headed then ok tt else err Error.control_error)
            (λ _. add_block sha256 text (sha256 rules) block (contains block below))
            s)
  heading_in-Appends text before below rules true there ruled at headed =
      add_block-Appends text before below rules (contains block below) there ruled at headed refl
  heading_in-Appends text before below rules false there ruled at headed =
      faults Error.control_error refl

  split_at :
      (text rules : String)
      → rules_block text ≡ some rules
      → (found : String × String) × (cut end_mark text ≡ some found)
  unfolding rules_block
  split_at text rules ruled = elim (Option-cases (cut begin_mark text)) [
    | inl nowhere ↦ absurd (ground (arith, ruled, nowhere))
    | inr (begins, at) ↦
        let ends = is_found (cut end_mark begins.1) (sym (ap block_in at) ∙ ruled) in
        found_in (cut end_mark text) (contains-cut end_mark begin_mark text begins at ends)
  ]
    where
      is_found : (x : Option (String × String)) → up_to x ≡ some rules → is_cut x ≡ true
      is_found none e = cc
      is_found (some _) e = refl

      found_in :
          (x : Option (String × String))
          → is_cut x ≡ true
          → (found : String × String) × (x ≡ some found)
      found_in none e = cc
      found_in (some found) e = (found, refl)

  ruled-Appends :
      (text : String) (rules : Option String)
      → s.strategy ≡ some text
      → rules_block text ≡ rules
      → Appends (
          continue
            (hash_of sha256 rules)
            (λ hash. do
              below ← lift (second_part (cut end_mark text))
              lift (heading_in below)
              add_block sha256 text hash block (contains block below))
            s)
  ruled-Appends text none there ruled = faults Error.config_error refl
  ruled-Appends text (some rules) there ruled =
      let (found, at) = split_at text rules ruled in
      rw at (
        heading_in-Appends text found.0 found.1 rules (contains lessons_heading found.1) there ruled
          at refl)

  read-Appends :
      (strategy : Option String)
      → s.strategy ≡ strategy
      → Appends (
          continue
            (readable strategy)
            (λ text. do
              hash ← lift (rules_hash sha256 text)
              below ← lift (second_part (cut end_mark text))
              lift (heading_in below)
              add_block sha256 text hash block (contains block below))
            s)
  unfolding rules_hash
  read-Appends none there = faults Error.control_error refl
  read-Appends (some text) there = ruled-Appends text (rules_block text) there refl

  pub append_block-Appends : Appends (append_block sha256 block s)
  unfolding append_block
  append_block-Appends = read-Appends s.strategy refl

contains_block : (block rest : String) → contains block (attach rest (attach "\n\n" block)) ≡ true
unfolding cut
contains_block String.[] String.[] = refl
contains_block String.[] (String.◌∷◌ c rest) = refl
contains_block (String.◌∷◌ c block) rest =
    ap (contains (String.◌∷◌ c block)) (sym (attach_assoc rest "\n\n" (String.◌∷◌ c block)))
    ∙ contains_end c block (attach rest "\n\n")

module _ {F : Type 0} (sha256 : String → String) (block : String) where
  append_block_known :
      (s : ControlState F) (text before below rules : String)
      → s.strategy ≡ some text
      → rules_block text ≡ some rules
      → cut end_mark text ≡ some (before, below)
      → contains lessons_heading below ≡ true
      → contains block below ≡ true
      → append_block sha256 block s ≡ (ok false, s)
  unfolding append_block rules_hash
  append_block_known s text before below rules there ruled at headed found =
      rw (there, ruled, at, headed, found)

  -- A second append of the same block finds it, whatever the first has done.
  replayed :
      (s : ControlState F) (after : Result Bool × ControlState F) (b : Bool)
      → Appends sha256 block s after
      → after.0 ≡ ok b
      → append_block sha256 block after.1 ≡ (ok false, after.1)
  replayed s _ b (faults e fault) h = cc
  replayed s _ b (stays text before below rules there ruled at headed found) h =
      append_block_known s text before below rules there ruled at headed found
  replayed s _ b (adds text before below rules there ruled at headed) h =
      let later = grown-IsBelow text below block before at in
      append_block_known (record s { strategy = some (grown text block) }) (grown text block)
        later.before (attach later.rest (attach "\n\n" block)) rules refl
        (rules_block-grown text block rules ruled) later.found
        (contains-attach lessons_heading later.rest (attach "\n\n" block)
          (later.same_heading ∙ headed))
        (contains_block block later.rest)

  -- An append that returns is idempotent: made again with the same block, as when the processor
  -- was stopped before it could archive the request, it finds the block below the rules section and
  -- changes nothing.
  pub append_block_replayed :
      (s : ControlState F) (b : Bool)
      → (append_block sha256 block s).0 ≡ ok b
      → append_block sha256 block (append_block sha256 block s).1
        ≡ (ok false, (append_block sha256 block s).1)
  append_block_replayed s b h =
      replayed s (append_block sha256 block s) b (append_block-Appends sha256 block s) h
