-- ===== src/Evolution/Machine.antt =====
-- The promotion machine that STRATEGY.md and the module's docstring describe, with no files and no
-- loop: the transitions that a variant may make in one review, and what each of them needs.
use i_am_not_a_trader_bot.Prelude.{String, true, false, ◌≡◌, ◌⊎◌, Option, none, some, ℕ}
use i_am_not_a_trader_bot.Prelude.Result.{ok}
use i_am_not_a_trader_bot.Float.{Float, ◌⊕◌}
use i_am_not_a_trader_bot.Config.{Config, Variant, Status, get}
use i_am_not_a_trader_bot.Report.{PairedResult, fundable_at_checkpoint, paired_comparison}
use i_am_not_a_trader_bot.Evolution.Ids.{parent_of}
use i_am_not_a_trader_bot.Evolution.State.{Files, Notice, NoticeValue, notice, number}
use i_am_not_a_trader_bot.Evolution.Notices.{veto_window_sec, valid_ack, has_passed, allocation_of}
use i_am_not_a_trader_bot.Evolution.Promotions.{Desk, flagged, defunded, promoted}

module _ {F : Type 0} ⦃fl : Float F⦄ (desk : Desk F) (config : Config F) (s : Files F) where
  -- The veto window is over: the deadline of the notice has passed, or, where it has none, the
  -- acknowledgement is valid and a window after it has passed.
  pub record IsOver (n : Notice F) (ack : NoticeValue F) : Type 0 where
    pub deadline : NoticeValue F
    pub passed : has_passed desk.now deadline ≡ ok true
    pub stamped :
        (n.veto_deadline_ts ≡ some deadline)
        ⊎ (at : F) × (n.veto_deadline_ts ≡ none)
          × (valid_ack desk.now n.created_ts ack ≡ ok (some at))
          × (deadline ≡ number (at ⊕ veto_window_sec))

  -- What a promotion needs of the notice that the review finds.
  pub record IsCleared (v : Variant F) (allocation : F) : Type 0 where
    pub content : Notice F
    pub ack : NoticeValue F
    pub there : get v.id s.notices ≡ some (notice content)
    pub delivered : content.delivery_ack_ts ≡ some ack
    pub over : IsOver content ack
    pub funds : allocation_of desk.parse_float content.proposed_allocation_usd ≡ ok allocation

  pub data Move (v w : Variant F) : Type 0 where
    flags :
        (parent : String) (checkpoint : Option ℕ)
        → parent_of v.id ≡ some parent
        → v.status ≡ Status.shadow
        → fundable_at_checkpoint desk.bootstrap s.ledger v.id config.gate config
          ≡ ok (true, checkpoint)
        → w ≡ flagged v
        → Move v w
    vetoes :
        v.status ≡ Status.pending_promotion → desk.has_veto v.id ≡ true → w ≡ defunded v → Move v w
    promotes :
        (allocation : F)
        → v.status ≡ Status.pending_promotion
        → desk.has_veto v.id ≡ false
        → IsCleared v allocation
        → w ≡ promoted allocation v
        → Move v w
    beats :
        (challenger : String) (result : PairedResult F)
        → parent_of challenger ≡ some v.id
        → paired_comparison desk.bootstrap s.ledger v.id challenger config.gate.ci_level ≡ ok result
        → result.challenger_wins ≡ true
        → w ≡ defunded v
        → Move v w

  pub data Reaches (v : Variant F) : Variant F → Type 0 where
    here : Reaches v v
    next : {u w : Variant F} → Reaches v u → Move u w → Reaches v w

  pub Reaches-trans : (u v w : Variant F) → Reaches u v → Reaches v w → Reaches u w
  Reaches-trans u v w p here = p
  Reaches-trans u v w p (next {u = x} q m) = next (Reaches-trans u v x p q) m
