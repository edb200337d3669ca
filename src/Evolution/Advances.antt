-- ===== src/Evolution/Advances.antt =====
-- The turn of a pending challenger: the veto, the clock of its notice, and the promotion.
use i_am_not_a_trader_bot.Prelude.{
  String, Bool, true, false, ◌≡◌, refl, sym, ◌∙◌, inl, inr, Option, none, some,
}
use i_am_not_a_trader_bot.Prelude.Result.{Result, ok, err}
use i_am_not_a_trader_bot.Prelude.Py.{lift, pure, ◌>>=◌, ◌>>◌}
use i_am_not_a_trader_bot.Float.{Float, ◌⊕◌}
use i_am_not_a_trader_bot.Config.{Config, Variant, Status, get, find_variant}
use i_am_not_a_trader_bot.Ledger.{VariantEvent, record_variant_event}
use i_am_not_a_trader_bot.Ledger.Admin.{
  IsAdmin, IsAdmin-refl, IsAdmin-trans, record_variant_event-IsAdmin,
}
use i_am_not_a_trader_bot.Evolution.Ids.{parent_of}
use i_am_not_a_trader_bot.Evolution.State.{
  Files, Notice, NoticeFile, NoticeValue, malformed, not_object, notice, number, put,
  change_variant,
}
use i_am_not_a_trader_bot.Evolution.Notices.{veto_window_sec, valid_ack, has_passed, allocation_of}
use i_am_not_a_trader_bot.Evolution.Promotions.{
  Desk, Review, defunded, promoted, maybe_retire_champion, promote, promote_if, stamp, start_clock,
  await, acknowledged, read_notice, unless_vetoed, advance_pending, write_prose,
}
use i_am_not_a_trader_bot.Evolution.Machine.{IsOver, IsCleared, Move}
use i_am_not_a_trader_bot.Evolution.Turns.{
  Turn, Turn-refl, Turn-trans, Turn-continue, Turn-then, change_variant-Reached, Reached-refl,
  get-put_other, maybe_retire_champion-Turn,
}

module _ {F : Type 0} ⦃fl : Float F⦄ (desk : Desk F) (config : Config F) (s : Files F)
    (v : Variant F) (parent_id : String) (child : parent_of v.id ≡ some parent_id)
    (pending : v.status ≡ Status.pending_promotion) where
  abbrev Turned : Review F → Review F → Type 0
  Turned = Turn desk config s v.id

  -- What is true of the review when the turn of the variant comes, and while its clock is read.
  record IsTurn (r : Review F) : Type 0 where
    there : find_variant v.id r.raw ≡ some v
    books : IsAdmin s.ledger r.files.ledger

  -- The document and the ledger after the promotion is written.
  abbrev entered : F → Review F → Review F
  entered allocation r = record {
    files = record (r.files) {
      ledger =
          (record_variant_event desk.now v.id VariantEvent.now_live v.params (some parent_id)
            r.files.ledger).1;
    };
    raw = change_variant v.id (promoted allocation) r.raw;
  }

  abbrev appended : String → Review F → Review F
  appended prose r = record r {
    files = record (r.files) { appends = put v.id prose r.files.appends };
  }

  entered-Turn :
      (allocation : F) (r : Review F)
      → IsTurn r
      → Move desk config s v (promoted allocation v)
      → Turned r (entered allocation r)
  entered-Turn allocation r h m = record {
    admin =
        record_variant_event-IsAdmin desk.now v.id VariantEvent.now_live v.params (some parent_id)
          r.files.ledger;
    same_file = refl;
    moved = change_variant-Reached desk config s v.id (promoted allocation) r.raw v h.there m;
    others = λ j apart. refl;
  }

  appended-Turn : (prose : String) (r : Review F) → Turned r (appended prose r)
  appended-Turn prose r = record {
    admin = IsAdmin-refl r.files.ledger;
    same_file = refl;
    moved = Reached-refl desk config s r.raw;
    others = λ j apart. refl;
  }

  write_prose-Turn :
      (n : Notice F) (r : Review F) → Turned r (write_prose desk config v.id parent_id n r).1
  write_prose-Turn n r =
      Turn-continue desk config s v.id (desk.render v.id parent_id n)
        (λ prose (t : Review F). (ok tt, appended prose t)) r (λ prose e. appended-Turn prose r)

  -- The prose, and the champion's retirement.
  announced-Turn :
      (n : Notice F) (r : Review F)
      → IsAdmin s.ledger r.files.ledger
      → Turned r
          ((write_prose desk config v.id parent_id n
              >> (maybe_retire_champion desk config parent_id v.id >> pure true))
            r).1
  announced-Turn n r books =
      let prose = write_prose desk config v.id parent_id n r in
      let first = write_prose-Turn n r in
      let books' = IsAdmin-trans s.ledger r.files.ledger prose.1.files.ledger books first.admin in
      let retired = maybe_retire_champion desk config parent_id v.id prose.1 in
      Turn-then desk config s v.id
        (λ _. maybe_retire_champion desk config parent_id v.id >> pure true) r prose.0 prose.1 first
        (λ _.
          Turn-then desk config s v.id (λ _. pure true) prose.1 retired.0 retired.1
            (maybe_retire_champion-Turn desk config s v.id parent_id prose.1 child books')
            (λ _. Turn-refl desk config s v.id retired.1))

  promote-Turn :
      (n : Notice F) (r : Review F)
      → IsTurn r
      → desk.has_veto v.id ≡ false
      → ((allocation : F)
          → allocation_of desk.parse_float n.proposed_allocation_usd ≡ ok allocation
          → IsCleared desk config s v allocation)
      → Turned r (promote desk config v parent_id n r).1
  unfolding promote record_variant_event
  promote-Turn n r h no_veto cleared =
      Turn-continue desk config s v.id (allocation_of desk.parse_float n.proposed_allocation_usd) _
        r
        (λ allocation e.
          let m = Move.promotes allocation pending no_veto (cleared allocation e) refl in
          let first = entered-Turn allocation r h m in
          let books =
            IsAdmin-trans s.ledger r.files.ledger (entered allocation r).files.ledger h.books
              first.admin in
          Turn-trans desk config s v.id r (entered allocation r) _ first
            (announced-Turn n (entered allocation r) books))

  module _ (r : Review F) (h : IsTurn r) (no_veto : desk.has_veto v.id ≡ false) (n : Notice F)
      (at : get v.id r.files.notices ≡ some (notice n))
      (kept : get v.id r.files.notices ≡ get v.id s.notices) (ack : NoticeValue F)
      (delivered : n.delivery_ack_ts ≡ some ack) where
    clears :
        IsOver desk config s n ack
        → (allocation : F)
        → allocation_of desk.parse_float n.proposed_allocation_usd ≡ ok allocation
        → IsCleared desk config s v allocation
    clears over allocation e = record {
      content = n;
      ack = ack;
      there = sym kept ∙ at;
      delivered = delivered;
      over = over;
      funds = e;
    }

    -- Once a deadline is known, which is `n`'s or a new one.
    awaited :
        (t : Review F) (m : Notice F) (deadline : NoticeValue F)
        → IsTurn t
        → m.proposed_allocation_usd ≡ n.proposed_allocation_usd
        → (has_passed desk.now deadline ≡ ok true → IsOver desk config s n ack)
        → Turned t (await desk config v parent_id (some (m, deadline)) t).1
    awaited t m deadline h' same over =
        Turn-continue desk config s v.id (has_passed desk.now deadline)
          (λ passed. promote_if desk config v parent_id m passed) t
          (λ passed e. promotes_if passed e)
      where
        promotes_if :
            (passed : Bool)
            → has_passed desk.now deadline ≡ ok passed
            → Turned t (promote_if desk config v parent_id m passed t).1
        promotes_if false e = Turn-refl desk config s v.id t
        promotes_if true e =
            promote-Turn m t h' no_veto
              (λ allocation funds. clears (over e) allocation (rw (← same) funds))

    stamped_at :
        (valid : Result (Option F))
        → n.veto_deadline_ts ≡ none
        → valid_ack desk.now n.created_ts ack ≡ valid
        → Turned r
            ((lift valid
                >>= (λ at. stamp desk config v.id n at)
                >>= (λ clock. await desk config v parent_id clock))
              r).1
    stamped_at (err e) no_deadline h' = Turn-refl desk config s v.id r
    stamped_at (ok none) no_deadline h' = Turn-refl desk config s v.id r
    stamped_at (ok (some time)) no_deadline h' =
        let deadline = number (time ⊕ veto_window_sec) in
        let m = record n { veto_deadline_ts = some deadline } in
        let t : Review F = record r {
          files = record (r.files) { notices = put v.id (notice m) r.files.notices };
        } in
        Turn-trans desk config s v.id r t _
          (record {
            admin = IsAdmin-refl r.files.ledger;
            same_file = refl;
            moved = Reached-refl desk config s r.raw;
            others = λ j apart. get-put_other j v.id (notice m) r.files.notices apart;
          })
          (awaited t m deadline (record { there = h.there; books = h.books }) refl
            (λ passed. record {
              deadline = deadline;
              passed = passed;
              stamped = inr (time, no_deadline, h', refl);
            }))

    clocked :
        (deadline : Option (NoticeValue F))
        → n.veto_deadline_ts ≡ deadline
        → Turned r
            ((start_clock desk config v.id n ack deadline
                >>= (λ clock. await desk config v parent_id clock))
              r).1
    clocked (some deadline) e =
        awaited r n deadline h refl
          (λ passed. record { deadline = deadline; passed = passed; stamped = inl e })
    clocked none e = stamped_at (valid_ack desk.now n.created_ts ack) e refl

  module _ (r : Review F) (h : IsTurn r)
      (kept : get v.id r.files.notices ≡ get v.id s.notices) where
    noticed :
        (file : Option (NoticeFile F))
        → desk.has_veto v.id ≡ false
        → get v.id r.files.notices ≡ file
        → Turned r (read_notice desk config v parent_id file r).1
    noticed none no_veto at = Turn-refl desk config s v.id r
    noticed (some malformed) no_veto at = Turn-refl desk config s v.id r
    noticed (some not_object) no_veto at = Turn-refl desk config s v.id r
    noticed (some (notice n)) no_veto at = delivered n.delivery_ack_ts refl
      where
        delivered :
            (ack : Option (NoticeValue F))
            → n.delivery_ack_ts ≡ ack
            → Turned r (acknowledged desk config v parent_id n ack r).1
        delivered none e = Turn-refl desk config s v.id r
        delivered (some ack) e = clocked r h no_veto n at kept ack e n.veto_deadline_ts refl

    vetoed_or_not :
        (veto : Bool)
        → desk.has_veto v.id ≡ veto
        → Turned r (unless_vetoed desk config v parent_id veto r).1
    unfolding record_variant_event
    vetoed_or_not false e = noticed (get v.id r.files.notices) e refl
    vetoed_or_not true e = record {
      admin =
          record_variant_event-IsAdmin desk.now v.id VariantEvent.vetoed v.params (some parent_id)
            r.files.ledger;
      same_file = refl;
      moved =
          change_variant-Reached desk config s v.id defunded r.raw v h.there
            (Move.vetoes pending e refl);
      others = λ j apart. refl;
    }

pub advance_pending-Turn :
    {F : Type 0} ⦃fl : Float F⦄ (desk : Desk F) (config : Config F) (s : Files F) (v : Variant F)
    (parent_id : String) (r : Review F)
    → parent_of v.id ≡ some parent_id
    → v.status ≡ Status.pending_promotion
    → find_variant v.id r.raw ≡ some v
    → IsAdmin s.ledger r.files.ledger
    → get v.id r.files.notices ≡ get v.id s.notices
    → Turn desk config s v.id r (advance_pending desk config v parent_id r).1
unfolding advance_pending
advance_pending-Turn desk config s v parent_id r child pending there books kept =
    vetoed_or_not desk config s v parent_id child pending r
      (record { there = there; books = books }) kept (desk.has_veto v.id) refl
