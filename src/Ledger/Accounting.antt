-- ===== src/Ledger/Accounting.antt =====
-- The reads against each other: what `realized_pnl_rows` counts and what `open_trades` ties up.
use i_am_not_a_trader_bot.Prelude.{
  ℕ, ◌+◌, String, Bool, true, false, ◌&&◌, ◌||◌, ◌==◌, ◌≡◌, refl, inl, inr, Option, none, some,
  List, [], ◌∷◌, ◌++◌, any, count_if, count_if-append, arith, eq_iff, Bool-cases, if◌then◌else◌,
  str_eq,
}
use i_am_not_a_trader_bot.Prelude.Result.{Result, ok, err, type_error, ◌>>=◌, returned->>=}
use i_am_not_a_trader_bot.Float.{Float}
use i_am_not_a_trader_bot.Signals.{Side}
use i_am_not_a_trader_bot.Ledger.Rows.{
  Ledger, Trade, TradeStatus, opened, filled, cancelled, failed, Resolution, Outcome, real, voided,
  unresolved_timeout, Mode, PnlRow, mode_eq, is_opened, is_filled,
}
use i_am_not_a_trader_bot.Ledger.Writes.{is_resolution}
use i_am_not_a_trader_bot.Ledger.Reads.{
  matches, open_rows, open_from, open_trades, pnl_of, pnl_row, rows_of_trade, pnl_rows,
  realized_pnl_rows,
}
use i_am_not_a_trader_bot.Ledger.Unique.{Unique}
use i_am_not_a_trader_bot.Ledger.Validity.{IsValid, same_market}

module _ {F : Type 0} where
  abbrev pub belongs : String → Mode → Trade F → Bool
  belongs variant_id mode t = str_eq t.variant_id variant_id && mode_eq t.mode mode

  -- A trade that has money in it: of the variant and mode, and open or filled.
  abbrev pub is_funded : String → Mode → ℕ → Trade F → Bool
  is_funded variant_id mode k t =
      t.id == k && (belongs variant_id mode t && (is_opened t.status || is_filled t.status))

  abbrev pub has_id : ℕ → Trade F → Bool
  has_id k t = t.id == k

  abbrev pub is_row_of : ℕ → PnlRow F → Bool
  is_row_of k row = row.trade.id == k

  no_match :
      (t : Trade F) (rs : List (Resolution F))
      → any (is_resolution t.bucket_ts t.market_slug) rs ≡ false
      → matches t rs ≡ []
  no_match t [] h = refl
  no_match t (r ∷ rs) h = elim (Bool-cases (is_resolution t.bucket_ts t.market_slug r)) [
    | inl hit ↦ absurd (ground arith)
    | inr miss ↦ rw miss (no_match t rs (ground arith))
  ]

  -- A join has at most one row.
  abbrev IsShort : List (Resolution F) → Type 0
  IsShort [] = Unit
  IsShort (r ∷ []) = Unit
  IsShort (r ∷ q ∷ rs) = ⊥

  -- A market has at most one resolution, so a trade is joined with at most one.
  matches-IsShort :
      (t : Trade F) (rs : List (Resolution F)) → Unique same_market rs → IsShort (matches t rs)
  matches-IsShort t [] u = tt
  matches-IsShort t (r ∷ rs) u = elim (Bool-cases (is_resolution t.bucket_ts t.market_slug r)) [
    | inr miss ↦ rw miss (matches-IsShort t rs u.1)
    | inl hit ↦
        let bucket : r.bucket_ts ≡ t.bucket_ts = ground arith in
        let slug : r.market_slug ≡ t.market_slug =
          ground (arith, eq_iff r.market_slug t.market_slug) in
        let others : any (is_resolution t.bucket_ts t.market_slug) rs ≡ false =
          rw (← bucket, ← slug) u.0 in
        rw (hit, no_match t rs others) tt
  ]

module _ {F : Type 0} ⦃fl : Float F⦄ where
  pnl_row-trade :
      (t : Trade F) (side : Side) (row : PnlRow F) → pnl_row t side ≡ ok row → row.trade ≡ t
  unfolding pnl_row
  pnl_row-trade t side row h = by_price t.filled_price h
    where
      row_of : F → F → PnlRow F
      row_of price pnl = record { trade = t; filled_price = price; outcome = side; pnl = pnl }

      priced :
          (price : F) (r : Result F) → (r >>= λ pnl. ok (row_of price pnl)) ≡ ok row → row.trade ≡ t
      priced price (ok pnl) made = ground arith
      priced price (err e) made = absurd (ground arith)

      by_price :
          (price : Option F)
          → (elim price [
            | none ↦ err type_error
            | some p ↦ pnl_of t.side p t.stake_usd t.fee_usd side >>= λ pnl. ok (row_of p pnl)
          ])
            ≡ ok row
          → row.trade ≡ t
      by_price none made = absurd (ground arith)
      by_price (some p) made = priced p (pnl_of t.side p t.stake_usd t.fee_usd side) made

  -- One trade makes, of its joins, one row in one of the two reads if it is open or filled, and none
  -- else.
  joined :
      (t : Trade F) (k : ℕ) (status : TradeStatus) (ms : List (Resolution F))
      (rows : List (PnlRow F))
      → t.status ≡ status
      → IsShort ms
      → (if is_filled status then rows_of_trade t ms else ok []) ≡ ok rows
      → count_if (is_row_of k) rows + count_if (has_id k) (open_rows t ms)
        ≡ (if t.id == k && (is_opened status || is_filled status) then 1 else 0)
  joined t k opened [] rows es short h = ground (arith, es, h)
  joined t k opened (r ∷ []) rows es short h = ground (arith, es, h)
  joined t k filled [] rows es short h = ground (arith, es, h)
  joined t k filled (r ∷ []) rows es short h = by_outcome r.outcome refl h
    where
      One : Type 0
      One =
          count_if (is_row_of k) rows + count_if (has_id k) (open_rows t (r ∷ []))
          ≡ (if t.id == k && true then 1 else 0)

      by_outcome :
          (o : Outcome)
          → r.outcome ≡ o
          → (elim o [
            | real side ↦ pnl_row t side >>= λ row. ok [] >>= λ rest. ok (row ∷ rest)
            | voided ↦ ok []
            | unresolved_timeout ↦ ok []
          ])
            ≡ ok rows
          → One
      by_outcome voided eo g = ground (arith, es, eo, g)
      by_outcome unresolved_timeout eo g = ground (arith, es, eo, g)
      by_outcome (real side) eo g =
          let (row, made, listed) = returned->>= (pnl_row t side) (λ row. ok (row ∷ [])) g in
          ground (arith, es, eo, listed, pnl_row-trade t side row made)
  joined t k cancelled [] rows es short h = ground (arith, es, h)
  joined t k cancelled (r ∷ []) rows es short h = ground (arith, es, h)
  joined t k failed [] rows es short h = ground (arith, es, h)
  joined t k failed (r ∷ []) rows es short h = ground (arith, es, h)
  joined t k status (r ∷ q ∷ rs) rows es short h = absurd short

  -- What one trade adds to the two reads of a variant and a mode.
  adds :
      (variant_id : String) (mode : Mode) (k : ℕ) (rs : List (Resolution F)) (t : Trade F)
      (rows : List (PnlRow F))
      → Unique same_market rs
      → (if is_filled t.status && belongs variant_id mode t
          then rows_of_trade t (matches t rs)
          else ok [])
        ≡ ok rows
      → count_if (is_row_of k) rows
          + count_if
              (has_id k)
              (if belongs variant_id mode t then open_rows t (matches t rs) else [])
        ≡ (if is_funded variant_id mode k t then 1 else 0)
  adds variant_id mode k rs t rows u h = elim (Bool-cases (belongs variant_id mode t)) [
    | inr elsewhere ↦ rw elsewhere (ground (arith, h, elsewhere))
    | inl here ↦ rw here (
        joined t k t.status (matches t rs) rows refl (matches-IsShort t rs u)
          (ground (arith, h, here)))
  ]

  listed :
      (variant_id : String) (mode : Mode) (k : ℕ) (rs : List (Resolution F)) (ts : List (Trade F))
      (rows : List (PnlRow F))
      → Unique same_market rs
      → pnl_rows (belongs variant_id mode) rs ts ≡ ok rows
      → count_if (is_row_of k) rows
          + count_if (has_id k) (open_from (some variant_id) (some mode) rs ts)
        ≡ count_if (is_funded variant_id mode k) ts
  unfolding pnl_rows
  listed variant_id mode k rs [] rows u h = ground (arith, h)
  listed variant_id mode k rs (t ∷ ts) rows u h =
      let (here, h₁, h₂) =
        returned->>=
          (if is_filled t.status && belongs variant_id mode t
            then rows_of_trade t (matches t rs)
            else ok [])
          (λ here. pnl_rows (belongs variant_id mode) rs ts >>= λ rest. ok (here ++ rest)) h in
      let (rest, h₃, h₄) =
        returned->>= (pnl_rows (belongs variant_id mode) rs ts) (λ rest. ok (here ++ rest)) h₂ in
      let same : here ++ rest ≡ rows = ground arith in
      rw
        (
          ← same,
          count_if-append (is_row_of k) here rest,
          count_if-append (has_id k)
              (if belongs variant_id mode t then open_rows t (matches t rs) else [])
              (open_from (some variant_id) (some mode) rs ts),
        )
        (ground
          (arith, adds variant_id mode k rs t here u h₁, listed variant_id mode k rs ts rest u h₃))

  -- In a valid ledger every trade of a variant and a mode that is open or filled is either a row of
  -- `realized_pnl_rows`, where these can be computed, or one of the `open_trades`, and never both,
  -- and a cancelled or failed one is neither: by each id, the rows and the open trades together are
  -- as many as the open or filled trades.
  pub realized_pnl_rows-open_trades :
      (variant_id : String) (mode : Mode) (k : ℕ) (l : Ledger F) (rows : List (PnlRow F))
      → IsValid l
      → realized_pnl_rows variant_id mode l ≡ ok rows
      → count_if (is_row_of k) rows
          + count_if (has_id k) (open_trades (some variant_id) (some mode) l)
        ≡ count_if (is_funded variant_id mode k) l.trades
  unfolding realized_pnl_rows open_trades
  realized_pnl_rows-open_trades variant_id mode k l rows valid h =
      listed variant_id mode k l.resolutions l.trades rows valid.markets h
