-- ===== src/Ledger/Entries.antt =====
-- One entry for each bucket, variant and mode, and one terminal update for each trade.
use i_am_not_a_trader_bot.Prelude.Result.{ledger_error, integrity_error, Result, err, ok}
use i_am_not_a_trader_bot.Prelude.{
  eq_iff, ◌+◌, length-append, str_eq, arith, length, ◌&&◌, Bool-cases, map, ◌++◌, ◌==◌, any, Option,
  ◌≡◌, count_if, List, String, ℕ, Bool, ◌∷◌, [], inr, inl, false, true, refl,
}
use i_am_not_a_trader_bot.Ledger.Writes.{
  is_entry, update_row, is_open_row, attach_order_id, record_trade, update_trade_fill, update_open,
}
use i_am_not_a_trader_bot.Ledger.Reads.{has_entry}
use i_am_not_a_trader_bot.Ledger.Rows.{
  mode_eq, is_terminal, next_id, TradeStatus, Mode, is_opened, Trade, Ledger,
}
use i_am_not_a_trader_bot.Signals.{Side}

is_entry_refl :
    (b : ℕ) (v : String) (mode : Mode) → (b == b && str_eq v v && mode_eq mode mode) ≡ true
is_entry_refl b v Mode.shadow = ground (arith, eq_iff v v)
is_entry_refl b v Mode.live = ground (arith, eq_iff v v)

any-snoc :
    {A : Type 0} (p : A → Bool) (xs : List A) (y : A) → p y ≡ true → any p (xs ++ y ∷ []) ≡ true
any-snoc p [] y h = ground arith
any-snoc p (x ∷ xs) y h = ground (arith, any-snoc p xs y h)

module _ {F : Type 0} where
  -- What `record_trade` does, by whether the bucket has an entry.
  abbrev pub EntersOnce : Bool → Ledger F → Result ℕ × Ledger F → Type 0
  EntersOnce true l (r, l') = (r ≡ err integrity_error) × (l' ≡ l)
  EntersOnce false l (r, l') =
      (r ≡ ok (next_id (λ (t : Trade F). t.id) l.trades)) × (length l'.trades ≡ length l.trades + 1)

  -- `record_trade` inserts one row where `has_entry` finds none, and else raises and writes nothing;
  -- after it, `has_entry` finds one.
  pub record_trade-EntersOnce :
      (ts : F) (b : ℕ) (v slug : String) (side : Side) (mode : Mode) (intended stake : F)
      (status : TradeStatus) (price : Option F) (fee : F) (l : Ledger F)
      → let after = record_trade ts b v slug side mode intended stake status price fee l in
        EntersOnce (has_entry b v mode l) l after × (has_entry b v mode after.1 ≡ true)
  unfolding record_trade has_entry
  record_trade-EntersOnce ts b v slug side mode intended stake status price fee l =
      elim (Bool-cases (any (is_entry b v mode) l.trades)) [
        | inl there ↦ rw there ((refl, refl), there)
        | inr fresh ↦ rw fresh (
          (refl, rw length-append (omega arith)),
          any-snoc (is_entry b v mode) l.trades _ (is_entry_refl b v mode),
        )
      ]

  -- After an update that closes the row, no open row has the id.
  pub count-closed :
      (k : ℕ) (f : Trade F → Trade F)
      → ((t : Trade F) → is_opened (f t).status ≡ false)
      → (ts : List (Trade F)) → count_if (is_open_row k) (map (update_row (is_open_row k) f) ts) ≡ 0
  count-closed k f closes [] = refl
  count-closed k f closes (t ∷ ts) = elim (Bool-cases (is_open_row k t)) [
    | inl hit ↦ rw hit (ground (arith, closes t, count-closed k f closes ts))
    | inr miss ↦ rw miss (ground (arith, count-closed k f closes ts))
  ]

  update-none :
      (k : ℕ) (f : Trade F → Trade F) (ts : List (Trade F))
      → count_if (is_open_row k) ts ≡ 0
      → map (update_row (is_open_row k) f) ts ≡ ts
  update-none k f [] h = refl
  update-none k f (t ∷ ts) h = elim (Bool-cases (is_open_row k t)) [
    | inl hit ↦ absurd (ground arith)
    | inr miss ↦ rw (miss, update-none k f ts (ground arith)) refl
  ]

  update_open_none :
      (k : ℕ) (f : Trade F → Trade F) (l : Ledger F)
      → count_if (is_open_row k) l.trades ≡ 0
      → update_open k f l ≡ (err ledger_error, l)
  unfolding update_open
  update_open_none k f l h = rw (h, update-none k f l.trades h) refl

  -- A trade is updated at most once: after a call of `update_trade_fill` that returned, another call
  -- for the same trade raises and writes nothing, and so does `attach_order_id`.
  pub update_trade_fill_once :
      (k : ℕ) (price price' : Option F) (fee fee' : F) (status status' : TradeStatus)
      (order_id : String) (l : Ledger F)
      → (update_trade_fill k price fee status l).0 ≡ ok tt
      → let after = (update_trade_fill k price fee status l).1 in
        (update_trade_fill k price' fee' status' after ≡ (err ledger_error, after))
        × (attach_order_id k order_id after ≡ (err ledger_error, after))
  unfolding update_trade_fill attach_order_id update_open
  update_trade_fill_once k price price' fee fee' status status' order_id l h =
      elim (Bool-cases (is_terminal status)) [
        | inr opened_again ↦ absurd (ground arith)
        | inl terminal ↦ (
          rw terminal (elim (Bool-cases (is_terminal status')) [
            | inr raises ↦ rw raises refl
            | inl again ↦ rw again (update_open_none k _ _ (none_open terminal))
          ]),
          rw terminal (update_open_none k _ _ (none_open terminal)),
        )
      ]
    where
      none_open :
          is_terminal status ≡ true
          → count_if
              (is_open_row k)
              (update_open k
                (λ t. record t { filled_price = price; fee_usd = fee; status = status })
                l).1.trades
            ≡ 0
      none_open terminal = count-closed k _ (λ t. ground arith) l.trades
