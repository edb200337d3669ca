-- ===== src/Ledger/Reads.antt =====
-- The typed reads of class Ledger.
use i_am_not_a_trader_bot.Prelude.{
  ℕ, String, Bool, true, false, not, ◌&&◌, ◌||◌, Option, none, some, List, [], ◌∷◌, ◌++◌, map, any,
  keep, count_if, foldl, str_eq, if◌then◌else◌,
}
use i_am_not_a_trader_bot.Prelude.Result.{Result, ok, err, type_error, ◌>>=◌}
use i_am_not_a_trader_bot.Float.{Float, ◌≺◌, ◌≼◌, ◌⊕◌, ◌⊖◌, nought, divide}
use i_am_not_a_trader_bot.Signals.{Side}
use i_am_not_a_trader_bot.Ledger.Rows.{
  Mode, real, voided, unresolved_timeout, Trade, Resolution, PnlRow, Ledger, side_eq, mode_eq,
  is_opened, is_filled, is_real,
}
use i_am_not_a_trader_bot.Ledger.Writes.{is_entry, is_resolution}

-- The operator's calendar, which `zoneinfo` computes: the day of a time, and a day's bounds.
pub record Calendar (F : Type 0) : Type 0 where
  pub operator_day : F → String
  pub day_start : String → F
  pub day_end : String → F

-- A condition of `open_trades` that is left out where the argument is None.
abbrev pub selects : Option String → (String → Bool) → Bool
selects none test = true
selects (some x) test = test x

abbrev pub selects_mode : Option Mode → Mode → Bool
selects_mode none m = true
selects_mode (some x) m = mode_eq m x

module _ {F : Type 0} where
  unfoldable pub has_entry : ℕ → String → Mode → Ledger F → Bool
  has_entry bucket_ts variant_id mode l = any (is_entry bucket_ts variant_id mode) l.trades

  unfoldable pub trades_for_variant : String → Mode → Ledger F → List (Trade F)
  trades_for_variant variant_id mode l =
      keep (λ t. str_eq t.variant_id variant_id && mode_eq t.mode mode) l.trades

  -- The rows of `resolutions` that the JOIN pairs with a trade.
  abbrev pub matches : Trade F → List (Resolution F) → List (Resolution F)
  matches t = keep (is_resolution t.bucket_ts t.market_slug)

  -- The rows that a LEFT JOIN makes of one trade, and those of them that `open_trades` keeps.
  abbrev pub open_rows : Trade F → List (Resolution F) → List (Trade F)
  open_rows t [] = if is_opened t.status || is_filled t.status then t ∷ [] else []
  open_rows t (r ∷ rs) =
      map (λ _. t)
        (keep
          (λ (q : Resolution F).
            is_opened t.status || is_filled t.status && not (is_real q.outcome))
          (r ∷ rs))

  abbrev pub open_from :
      Option String → Option Mode → List (Resolution F) → List (Trade F) → List (Trade F)
  open_from variant_id mode rs [] = []
  open_from variant_id mode rs (t ∷ ts) =
      (if selects variant_id (str_eq t.variant_id) && selects_mode mode t.mode
        then open_rows t (matches t rs)
        else [])
      ++ open_from variant_id mode rs ts

  unfoldable pub open_trades : Option String → Option Mode → Ledger F → List (Trade F)
  open_trades variant_id mode l = open_from variant_id mode l.resolutions l.trades

  -- How many of the newest resolutions, by bucket, are timeouts in a row.
  abbrev newer : Resolution F → Resolution F → Bool
  newer a b = elim (Prim.Native.Nat.compare a.bucket_ts b.bucket_ts) [
    | Prim.Native.Nat.Ordering.gt ↦ true
    | Prim.Native.Nat.Ordering.lt ↦ false
    | Prim.Native.Nat.Ordering.eq ↦ elim (Prim.Native.Nat.compare a.id b.id) [
      | Prim.Native.Nat.Ordering.gt ↦ true
      | _ ↦ false
    ]
  ]

  abbrev insert_newest : Resolution F → List (Resolution F) → List (Resolution F)
  insert_newest r [] = r ∷ []
  insert_newest r (q ∷ qs) =
      let rest = insert_newest r qs in if newer q r then q ∷ rest else r ∷ q ∷ qs

  abbrev newest_first : List (Resolution F) → List (Resolution F)
  newest_first [] = []
  newest_first (r ∷ rs) = insert_newest r (newest_first rs)

  abbrev streak : List (Resolution F) → ℕ
  streak [] = 0
  streak (r ∷ rs) = elim r.outcome [
    | unresolved_timeout ↦ Prim.Native.Nat.suc (streak rs)
    | real _ ↦ 0
    | voided ↦ 0
  ]

  unfoldable pub consecutive_unresolved : Ledger F → ℕ
  consecutive_unresolved l = streak (newest_first l.resolutions)

module _ {F : Type 0} ⦃fl : Float F⦄ where
  -- `_pnl`: a stake buys stake / price shares, which pay one dollar each on a win.
  unfoldable pub pnl_of : Side → F → F → F → Side → Result F
  pnl_of side filled_price stake_usd fee_usd outcome = do
    shares ← divide stake_usd filled_price
    ok ((if side_eq outcome side then shares else nought) ⊖ stake_usd ⊖ fee_usd)

  -- One row of `_pnl_rows`; a NULL price meets `/` as None.
  unfoldable pub pnl_row : Trade F → Side → Result (PnlRow F)
  pnl_row t outcome = elim t.filled_price [
    | none ↦ err type_error
    | some price ↦ do
      pnl ← pnl_of t.side price t.stake_usd t.fee_usd outcome
      ok (record { trade = t; filled_price = price; outcome = outcome; pnl = pnl })
  ]

  -- The rows that one trade makes with its resolutions.
  abbrev pub rows_of_trade : Trade F → List (Resolution F) → Result (List (PnlRow F))
  rows_of_trade t [] = ok []
  rows_of_trade t (r ∷ rs) = elim r.outcome [
    | real side ↦ do row ← pnl_row t side; rest ← rows_of_trade t rs; ok (row ∷ rest)
    | voided ↦ rows_of_trade t rs
    | unresolved_timeout ↦ rows_of_trade t rs
  ]

  -- `_PNL_JOIN_SQL` with a further condition on the trade.
  unfoldable pub pnl_rows :
      (Trade F → Bool) → List (Resolution F) → List (Trade F) → Result (List (PnlRow F))
  pnl_rows extra rs [] = ok []
  pnl_rows extra rs (t ∷ ts) = do
    here ← if is_filled t.status && extra t then rows_of_trade t (matches t rs) else ok []
    rest ← pnl_rows extra rs ts
    ok (here ++ rest)

  unfoldable pub realized_pnl_rows : String → Mode → Ledger F → Result (List (PnlRow F))
  realized_pnl_rows variant_id mode l =
      pnl_rows (λ t. str_eq t.variant_id variant_id && mode_eq t.mode mode) l.resolutions l.trades

  abbrev pub total_pnl : List (PnlRow F) → F
  total_pnl rows = foldl (λ sum row. sum ⊕ row.pnl) nought rows

  module _ ⦃cal : Calendar F⦄ where
    abbrev pub is_live_on : String → Trade F → Bool
    is_live_on day t =
        mode_eq t.mode Mode.live && cal.day_start day ≼ t.ts && t.ts ≺ cal.day_end day

    unfoldable pub live_realized_pnl_on_day : String → Ledger F → Result F
    live_realized_pnl_on_day day l = do
      rows ← pnl_rows (is_live_on day) l.resolutions l.trades
      ok (total_pnl rows)

    unfoldable pub live_trade_count_on_day : String → Ledger F → ℕ
    live_trade_count_on_day day l = count_if (is_live_on day) l.trades
