-- ===== src/Executor/Fills.antt =====
-- `ShadowExecutor.execute`: the one row that it writes, already filled.
use i_am_not_a_trader_bot.Prelude.{
  ℕ, Bool, true, false, ◌≡◌, ◌⊎◌, inl, inr, Bool-cases, refl, none, some, List, [], ◌∷◌, ◌++◌, map,
  any, count_if, arith, ◌==◌, ap,
}
use i_am_not_a_trader_bot.Prelude.Result.{Result, ok, err, zero_division_error}
use i_am_not_a_trader_bot.Float.{Float, nought, ◌≺◌, ◌≐◌, ◌⊕◌, ◌⊖◌, ◌⊗◌, of_ℕ, divide}
use i_am_not_a_trader_bot.Signals.{FeatureSnapshot}
use i_am_not_a_trader_bot.Ledger.{
  Mode, Ledger, Trade, next_id, opened, filled, is_open_row, update_row, has_entry, record_trade,
  update_trade_fill, update_open,
}
use i_am_not_a_trader_bot.Ledger.Validity.{next_id_fresh}
use i_am_not_a_trader_bot.Risk.{Approved}
use i_am_not_a_trader_bot.Executor.{shadow_price, taker_fee, shadow_execute}

module _ {F : Type 0} where
  abbrev pub fresh_id : Ledger F → ℕ
  fresh_id l = next_id (λ (t : Trade F). t.id) l.trades

  -- Rows of other ids stay as they are.
  update-append :
      (k : ℕ) (f : Trade F → Trade F) (t : Trade F) (ts : List (Trade F))
      → any (λ (u : Trade F). k == u.id) ts ≡ false
      → is_open_row k t ≡ true
      → map (update_row (is_open_row k) f) (ts ++ t ∷ []) ≡ ts ++ f t ∷ []
  update-append k f t [] fresh hit = rw hit refl
  update-append k f t (u ∷ ts) fresh hit =
      let miss : is_open_row k u ≡ false = ground arith in
      rw miss (ap (λ r. u ∷ r) (update-append k f t ts (ground arith) hit))

  count-append :
      (k : ℕ) (t : Trade F) (ts : List (Trade F))
      → any (λ (u : Trade F). k == u.id) ts ≡ false
      → is_open_row k t ≡ true
      → count_if (is_open_row k) (ts ++ t ∷ []) ≡ 1
  count-append k t [] fresh hit = rw hit refl
  count-append k t (u ∷ ts) fresh hit =
      let miss : is_open_row k u ≡ false = ground arith in
      rw miss (count-append k t ts (ground arith) hit)

  -- The row that an approval becomes, at a price and a fee.
  abbrev pub filled_row : ℕ → F → F → F → Approved F → Trade F
  filled_row id clock price fee a = record {
    id = id;
    ts = clock;
    bucket_ts = a.bucket_ts;
    variant_id = a.variant_id;
    market_slug = a.market_slug;
    side = a.side;
    mode = Mode.shadow;
    intended_price = a.limit_price;
    filled_price = some price;
    stake_usd = a.stake_usd;
    fee_usd = fee;
    status = filled;
    order_id = none;
  }

  -- Filling the open row that was appended last.
  fill_last :
      (l : Ledger F) (t : Trade F) (price fee : F)
      → t.id ≡ fresh_id l
      → t.status ≡ opened
      → update_trade_fill t.id (some price) fee filled (record l { trades = l.trades ++ t ∷ [] })
        ≡ (
          ok tt,
          record l {
            trades =
                l.trades
                ++ record t { filled_price = some price; fee_usd = fee; status = filled } ∷ [];
          },
        )
  unfolding update_trade_fill update_open
  fill_last l t price fee same open_row =
      let hit : is_open_row t.id t ≡ true = ground arith in
      let fresh : any (λ (u : Trade F). t.id == u.id) l.trades ≡ false =
        next_id_fresh t.id l.trades (omega arith) in
      rw (count-append t.id t l.trades fresh hit, update-append t.id _ t l.trades fresh hit) refl

module _ {F : Type 0} ⦃fl : Float F⦄ where
  -- One tick over the limit, and at most 0.99.
  abbrev pub IsPessimistic : F → F → Type 0
  IsPessimistic limit price =
      ((fl.decimal 99 2 ≺ (limit ⊕ fl.decimal 1 2)) ≡ true) × (price ≡ fl.decimal 99 2)
      ⊎ ((fl.decimal 99 2 ≺ (limit ⊕ fl.decimal 1 2)) ≡ false) × (price ≡ limit ⊕ fl.decimal 1 2)

  -- The fee of a fill: shares * rate * p * (1 - p) where the market charges fees.
  abbrev pub IsFee : Bool → F → F → F → F → Type 0
  IsFee false stake rate price fee = fee ≡ nought
  IsFee true stake rate price fee =
      ((price ≐ nought) ≡ false) × (fee ≡ fl.div stake price ⊗ rate ⊗ price ⊗ (of_ℕ 1 ⊖ price))

  -- The one trade more.
  pub record IsFilled (clock : F) (a : Approved F) (snap : FeatureSnapshot F) (l : Ledger F)
      (after : Result ℕ × Ledger F) : Type 0 where
    pub price : F
    pub fee : F
    pub is_price : IsPessimistic a.limit_price price
    pub is_fee : IsFee snap.fees_enabled a.stake_usd snap.fee_rate price fee
    pub appended : after ≡ (
      ok (fresh_id l),
      record l { trades = l.trades ++ filled_row (fresh_id l) clock price fee a ∷ [] },
    )

  -- The price that the fee would divide by is zero.
  pub record IsUnpriced (a : Approved F) (snap : FeatureSnapshot F) (l : Ledger F)
      (after : Result ℕ × Ledger F) : Type 0 where
    pub price : F
    pub is_price : IsPessimistic a.limit_price price
    pub charged : snap.fees_enabled ≡ true
    pub is_zero : (price ≐ nought) ≡ true
    pub raised : after ≡ (err zero_division_error, l)

  shadow_price-IsPessimistic : (limit : F) → IsPessimistic limit (shadow_price limit)
  shadow_price-IsPessimistic limit =
      elim (Bool-cases (fl.decimal 99 2 ≺ (limit ⊕ fl.decimal 1 2))) [
        | inl over ↦ inl (over, rw over refl)
        | inr under ↦ inr (under, rw under refl)
      ]

  -- The fee is the formula's, or the formula divides by zero.
  pub taker_fee_cases :
      (enabled : Bool) (stake rate price : F)
      → ((fee : F) × (taker_fee enabled stake rate price ≡ ok fee)
          × IsFee enabled stake rate price fee)
        ⊎ (enabled ≡ true)
          × ((price ≐ nought) ≡ true)
          × (taker_fee enabled stake rate price ≡ err zero_division_error)
  unfolding taker_fee divide
  taker_fee_cases false stake rate price = inl (nought, refl, refl)
  taker_fee_cases true stake rate price = elim (Bool-cases (price ≐ nought)) [
    | inl zero ↦ inr (refl, zero, ground (arith, zero))
    | inr nonzero ↦ inl (
      fl.div stake price ⊗ rate ⊗ price ⊗ (of_ℕ 1 ⊖ price),
      ground (arith, nonzero),
      (nonzero, refl),
    )
  ]

  filled_at :
      (clock : F) (a : Approved F) (snap : FeatureSnapshot F) (l : Ledger F) (fee : F)
      → a.mode ≡ Mode.shadow
      → has_entry a.bucket_ts a.variant_id Mode.shadow l ≡ false
      → taker_fee snap.fees_enabled a.stake_usd snap.fee_rate (shadow_price a.limit_price) ≡ ok fee
      → shadow_execute clock a snap l ≡ (
        ok (fresh_id l),
        record l {
          trades =
              l.trades ++ filled_row (fresh_id l) clock (shadow_price a.limit_price) fee a ∷ [];
        },
      )
  unfolding shadow_execute record_trade has_entry
  filled_at clock a snap l fee in_shadow first priced =
      rw (in_shadow, priced, first)
        (rw
          (fill_last l
            (record (filled_row (fresh_id l) clock (shadow_price a.limit_price) fee a) {
              filled_price = none;
              fee_usd = nought;
              status = opened;
            })
            (shadow_price a.limit_price) fee refl refl)
          refl)

  unpriced :
      (clock : F) (a : Approved F) (snap : FeatureSnapshot F) (l : Ledger F)
      → a.mode ≡ Mode.shadow
      → taker_fee snap.fees_enabled a.stake_usd snap.fee_rate (shadow_price a.limit_price)
        ≡ err zero_division_error
      → shadow_execute clock a snap l ≡ (err zero_division_error, l)
  unfolding shadow_execute
  unpriced clock a snap l in_shadow raised = rw (in_shadow, raised) refl

  -- A shadow approval for a bucket without an entry is executed by appending one trade, and nothing
  -- else: filled one tick over the limit and at most at 0.99, with the fee shares * rate * p * (1 - p)
  -- where the market charges fees, and no fee elsewhere. Only where the market charges fees and this
  -- price is zero, it raises ZeroDivisionError instead and leaves the ledger as it was.
  pub shadow_execute-Fills :
      (clock : F) (a : Approved F) (snap : FeatureSnapshot F) (l : Ledger F)
      → a.mode ≡ Mode.shadow
      → has_entry a.bucket_ts a.variant_id Mode.shadow l ≡ false
      → IsFilled clock a snap l (shadow_execute clock a snap l)
        ⊎ IsUnpriced a snap l (shadow_execute clock a snap l)
  shadow_execute-Fills clock a snap l in_shadow first =
      elim (taker_fee_cases snap.fees_enabled a.stake_usd snap.fee_rate
        (shadow_price a.limit_price)) [
          | inl (fee, priced, is_fee) ↦ inl (record {
            price = shadow_price a.limit_price;
            fee = fee;
            is_price = shadow_price-IsPessimistic a.limit_price;
            is_fee = is_fee;
            appended = filled_at clock a snap l fee in_shadow first priced;
          })
          | inr (charged, zero, raised) ↦ inr (record {
            price = shadow_price a.limit_price;
            is_price = shadow_price-IsPessimistic a.limit_price;
            charged = charged;
            is_zero = zero;
            raised = unpriced clock a snap l in_shadow raised;
          })
        ]
