-- ===== src/Evolution/Promotions.antt =====
-- engine/evolution.py: `review_promotions`, the promotion machine. The operator's veto files, the
-- bootstrap interval, `float` of a text and the wording of the prose are parameters.
use i_am_not_a_trader_bot.Prelude.{
  String, Bool, true, false, ◌||◌, Option, none, some, List, [], ◌∷◌,
}
use i_am_not_a_trader_bot.Prelude.Result.{Result, ok, err, value_error, attribute_error}
use i_am_not_a_trader_bot.Prelude.Py.{
  Exec, pure, raise, lift, gets, gets_result, modify, ◌>>=◌, ◌>>◌,
}
use i_am_not_a_trader_bot.Float.{Float, ◌⊕◌, nought}
use i_am_not_a_trader_bot.Config.{Config, Variant, Status, get, find_variant}
use i_am_not_a_trader_bot.Config.Validation.{ids_of, load}
use i_am_not_a_trader_bot.Ledger.{VariantEvent, record_variant_event}
use i_am_not_a_trader_bot.Report.{Bootstrap, fundable_at_checkpoint, paired_comparison}
use i_am_not_a_trader_bot.Evolution.Ids.{parent_of}
use i_am_not_a_trader_bot.Evolution.State.{
  Files, Notice, NoticeFile, NoticeValue, malformed, not_object, notice, number, put, on_ledger,
  change_variant, write_raw_config,
}
use i_am_not_a_trader_bot.Evolution.Notices.{
  default_allocation_usd, veto_window_sec, valid_ack, has_passed, allocation_of,
}

-- The files, and the document `raw` that the review edits before it is written.
pub record Review (F : Type 0) : Type 0 where
  pub files : Files F
  pub raw : List (Variant F)

-- What the review is given from outside.
pub record Desk (F : Type 0) : Type 0 where
  pub now : F
  pub has_veto : String → Bool
  pub bootstrap : Bootstrap F
  pub parse_float : String → Option F
  -- the prose of a variant, its parent and its notice
  pub render : String → String → Notice F → Result String

module _ {F : Type 0} where
  abbrev pub in_files : {A : Type 0} → Exec (Files F) A → Exec (Review F) A
  in_files m r = let (x, s) = m r.files in (x, record r { files = s })

  abbrev pub change : String → (Variant F → Variant F) → Exec (Review F) (Unit {0})
  change id f = modify (λ (r : Review F). record r { raw = change_variant id f r.raw })

  abbrev pub write_notice : String → NoticeFile F → Exec (Review F) (Unit {0})
  write_notice id content =
      in_files (modify (λ (s : Files F). record s { notices = put id content s.notices }))

  abbrev pub flagged : Variant F → Variant F
  flagged v = record v { status = Status.pending_promotion }

module _ {F : Type 0} ⦃fl : Float F⦄ where
  abbrev pub defunded : Variant F → Variant F
  defunded v = record v { status = Status.retired; allocation_usd = nought }

  abbrev pub promoted : F → Variant F → Variant F
  promoted allocation v = record v { status = Status.live; allocation_usd = allocation }

  abbrev pub new_notice : F → Notice F
  new_notice now = record {
    delivery_ack_ts = none;
    veto_deadline_ts = none;
    created_ts = some (number now);
    proposed_allocation_usd = some (number default_allocation_usd);
  }

  module _ (desk : Desk F) (config : Config F) where
    abbrev pub log_variant : Variant F → VariantEvent → Option String → Exec (Review F) (Unit {0})
    log_variant v event parent = do
      in_files (on_ledger (record_variant_event desk.now v.id event v.params parent))
      pure tt

    abbrev pub flag_pending : Variant F → String → Bool → Exec (Review F) Bool
    flag_pending v parent_id false = pure false
    flag_pending v parent_id true = do
      write_notice v.id (notice (new_notice desk.now))
      log_variant v VariantEvent.pending_promotion (some parent_id)
      change v.id flagged
      pure true

    unfoldable pub maybe_flag_pending : Variant F → String → Exec (Review F) Bool
    maybe_flag_pending v parent_id = do
      verdict ← gets_result (λ (r : Review F).
          fundable_at_checkpoint desk.bootstrap r.files.ledger v.id config.gate config)
      flag_pending v parent_id verdict.0

    abbrev pub retire_parent : Variant F → Status → Exec (Review F) (Unit {0})
    retire_parent parent Status.retired = pure tt
    retire_parent parent Status.shadow = do
      change parent.id defunded
      log_variant parent VariantEvent.retired none
    retire_parent parent Status.live = do
      change parent.id defunded
      log_variant parent VariantEvent.retired none
    retire_parent parent Status.pending_promotion = do
      change parent.id defunded
      log_variant parent VariantEvent.retired none

    abbrev pub retire_found : Option (Variant F) → Exec (Review F) (Unit {0})
    retire_found none = pure tt
    retire_found (some parent) = retire_parent parent parent.status

    abbrev pub retire_beaten : String → Bool → Exec (Review F) (Unit {0})
    retire_beaten parent_id false = pure tt
    retire_beaten parent_id true = do
      parent ← gets (λ (r : Review F). find_variant parent_id r.raw)
      retire_found parent

    unfoldable pub maybe_retire_champion : String → String → Exec (Review F) (Unit {0})
    maybe_retire_champion parent_id challenger_id = do
      result ← gets_result (λ (r : Review F).
          paired_comparison desk.bootstrap r.files.ledger parent_id challenger_id
            config.gate.ci_level)
      retire_beaten parent_id result.challenger_wins

    abbrev pub write_prose : String → String → Notice F → Exec (Review F) (Unit {0})
    write_prose variant_id parent_id n = do
      prose ← lift (desk.render variant_id parent_id n)
      in_files (modify (λ (s : Files F). record s { appends = put variant_id prose s.appends }))

    unfoldable pub promote : Variant F → String → Notice F → Exec (Review F) Bool
    promote v parent_id n = do
      allocation ← lift (allocation_of desk.parse_float n.proposed_allocation_usd)
      change v.id (promoted allocation)
      log_variant v VariantEvent.now_live (some parent_id)
      write_prose v.id parent_id n
      maybe_retire_champion parent_id v.id
      pure true

    -- `ack + deadline passed + no veto`
    abbrev pub promote_if : Variant F → String → Notice F → Bool → Exec (Review F) Bool
    promote_if v parent_id n false = pure false
    promote_if v parent_id n true = promote v parent_id n

    -- The stamp of a valid acknowledgement; the notice is none where there is no deadline yet.
    abbrev pub stamp :
        String → Notice F → Option F → Exec (Review F) (Option (Notice F × NoticeValue F))
    stamp id n none = pure none
    stamp id n (some ack) = do
      let stamped = record n { veto_deadline_ts = some (number (ack ⊕ veto_window_sec)) }
      write_notice id (notice stamped)
      pure (some (stamped, number (ack ⊕ veto_window_sec)))

    abbrev pub start_clock :
        String
        → Notice F
        → NoticeValue F
        → Option (NoticeValue F)
        → Exec (Review F) (Option (Notice F × NoticeValue F))
    start_clock id n ack (some deadline) = pure (some (n, deadline))
    start_clock id n ack none = do
      valid ← lift (valid_ack desk.now n.created_ts ack)
      stamp id n valid

    abbrev pub await : Variant F → String → Option (Notice F × NoticeValue F) → Exec (Review F) Bool
    await v parent_id none = pure false
    await v parent_id (some (n, deadline)) = do
      passed ← lift (has_passed desk.now deadline)
      promote_if v parent_id n passed

    -- An undelivered notice never starts the clock.
    abbrev pub acknowledged :
        Variant F → String → Notice F → Option (NoticeValue F) → Exec (Review F) Bool
    acknowledged v parent_id n none = pure false
    acknowledged v parent_id n (some ack) = do
      clock ← start_clock v.id n ack n.veto_deadline_ts
      await v parent_id clock

    abbrev pub read_notice : Variant F → String → Option (NoticeFile F) → Exec (Review F) Bool
    read_notice v parent_id none = pure false
    read_notice v parent_id (some malformed) = raise value_error
    read_notice v parent_id (some not_object) = raise attribute_error
    read_notice v parent_id (some (notice n)) = acknowledged v parent_id n n.delivery_ack_ts

    abbrev pub unless_vetoed : Variant F → String → Bool → Exec (Review F) Bool
    unless_vetoed v parent_id true = do
      change v.id defunded
      log_variant v VariantEvent.vetoed (some parent_id)
      pure true
    unless_vetoed v parent_id false = do
      file ← gets (λ (r : Review F). get v.id r.files.notices)
      read_notice v parent_id file

    unfoldable pub advance_pending : Variant F → String → Exec (Review F) Bool
    advance_pending v parent_id = unless_vetoed v parent_id (desk.has_veto v.id)

    abbrev pub by_status : Variant F → String → Status → Exec (Review F) Bool
    by_status v parent_id Status.shadow = maybe_flag_pending v parent_id
    by_status v parent_id Status.pending_promotion = advance_pending v parent_id
    by_status v parent_id Status.live = pure false
    by_status v parent_id Status.retired = pure false

    -- A variant that is nobody's challenger is passed over.
    abbrev pub review_challenger : Variant F → Option String → Exec (Review F) Bool
    review_challenger v none = pure false
    review_challenger v (some parent_id) = by_status v parent_id v.status

    abbrev pub review_found : Option (Variant F) → Exec (Review F) Bool
    review_found none = pure false
    review_found (some v) = review_challenger v (parent_of v.id)

    -- The objects of `raw["variants"]` in their order, by their ids, of which `load_config` has
    -- found each once.
    unfoldable pub review_all : List String → Exec (Review F) Bool
    review_all [] = pure false
    review_all (id ∷ ids) = do
      v ← gets (λ (r : Review F). find_variant id r.raw)
      changed ← review_found v
      others ← review_all ids
      pure (changed || others)

    -- The document is written where something has changed.
    abbrev pub settle_review : Result Bool × Review F → Result (Unit {0}) × Files F
    settle_review (err e, r) = (err e, r.files)
    settle_review (ok false, r) = (ok tt, r.files)
    settle_review (ok true, r) = write_raw_config (record config { variants = r.raw }) r.files

  abbrev pub review_loaded : Desk F → Result (Config F) → Exec (Files F) (Unit {0})
  review_loaded desk (err e) s = (err e, s)
  review_loaded desk (ok config) s = settle_review desk config (
      review_all desk config (ids_of config.variants) (record { files = s; raw = config.variants }))

  unfoldable pub review_promotions : Desk F → Exec (Files F) (Unit {0})
  review_promotions desk s = review_loaded desk (load s.config_file) s
