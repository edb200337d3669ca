-- ===== src/Executor/Shadow.antt =====
-- The shadow executor writes shadow trades only, at the approved stake.
use i_am_not_a_trader_bot.Prelude.{
  ℕ, ◌≡◌, refl, Option, some, none, All, All-append, List, [], ◌∷◌, map, any, Bool-cases, inl, inr,
  subst,
}
use i_am_not_a_trader_bot.Prelude.Py.{Exec, pure, lift, ◌>>=◌}
use i_am_not_a_trader_bot.Prelude.Keeps.{Keeps, Keeps->>=}
use i_am_not_a_trader_bot.Float.{Float, nought}
use i_am_not_a_trader_bot.Signals.{FeatureSnapshot}
use i_am_not_a_trader_bot.Ledger.{
  Ledger, Trade, TradeStatus, Mode, opened, filled, is_terminal, is_entry, is_open_row, update_row,
  record_trade, update_trade_fill, update_open,
}
use i_am_not_a_trader_bot.Risk.{Approved}
use i_am_not_a_trader_bot.Executor.{shadow_price, taker_fee, fill_shadow, shadow_in, shadow_execute}

module _ {F : Type 0} (stake : F) where
  -- A shadow trade at this stake.
  abbrev pub IsShadow : Trade F → Type 0
  IsShadow t = (t.mode ≡ Mode.shadow) × (t.stake_usd ≡ stake)

  abbrev pub AllShadow : Ledger F → Type 0
  AllShadow l = All IsShadow l.trades

  abbrev pub StaysShadow : Ledger F → Ledger F → Type 0
  StaysShadow l l' = AllShadow l → AllShadow l'

  chain :
      {A B : Type 0} (m : Exec (Ledger F) A) (f : A → Exec (Ledger F) B)
      → Keeps StaysShadow m
      → ((a : A) → Keeps StaysShadow (f a))
      → Keeps StaysShadow (m >>= f)
  chain m f = Keeps->>= StaysShadow m f (λ s t u p q h. q (p h))

  update_row-IsShadow :
      (k : ℕ) (price : Option F) (fee : F) (status : TradeStatus) (ts : List (Trade F))
      → All IsShadow ts
      → All IsShadow (
          map
            (update_row
              (is_open_row k)
              (λ t. record t { filled_price = price; fee_usd = fee; status = status }))
            ts)
  update_row-IsShadow k price fee status [] h = tt
  update_row-IsShadow k price fee status (t ∷ ts) h = elim (Bool-cases (is_open_row k t)) [
    | inl hit ↦ rw hit (h.0, update_row-IsShadow k price fee status ts h.1)
    | inr miss ↦ rw miss (h.0, update_row-IsShadow k price fee status ts h.1)
  ]

  fill-StaysShadow :
      (k : ℕ) (price : Option F) (fee : F) (status : TradeStatus)
      → Keeps StaysShadow (update_trade_fill k price fee status)
  unfolding update_trade_fill update_open
  fill-StaysShadow k price fee status l h = elim (Bool-cases (is_terminal status)) [
    | inl terminal ↦ rw terminal (update_row-IsShadow k price fee status l.trades h)
    | inr open_still ↦ rw open_still h
  ]

module _ {F : Type 0} ⦃fl : Float F⦄ (clock : F) (a : Approved F) where
  fill_shadow-StaysShadow :
      (price fee : F) → Keeps (StaysShadow a.stake_usd) (fill_shadow clock price fee a)
  unfolding record_trade
  fill_shadow-StaysShadow price fee =
      chain a.stake_usd
        (record_trade clock a.bucket_ts a.variant_id a.market_slug a.side Mode.shadow a.limit_price
          a.stake_usd opened none nought)
        _
        (λ l h. elim (Bool-cases (any (is_entry a.bucket_ts a.variant_id Mode.shadow) l.trades)) [
          | inl there ↦ rw there h
          | inr fresh ↦ rw fresh (All-append (IsShadow a.stake_usd) l.trades _ h ((refl, refl), tt))
        ])
        (λ k.
          chain a.stake_usd (update_trade_fill k (some price) fee filled) (λ _. pure k)
            (fill-StaysShadow a.stake_usd k (some price) fee filled) (λ _ l h. h))

  shadow_in-StaysShadow :
      (snap : FeatureSnapshot F)
      → Keeps (StaysShadow a.stake_usd) (shadow_in clock a snap Mode.shadow)
  shadow_in-StaysShadow snap =
      chain a.stake_usd
        (lift (taker_fee snap.fees_enabled a.stake_usd snap.fee_rate (shadow_price a.limit_price)))
        (λ fee. fill_shadow clock (shadow_price a.limit_price) fee a) (λ l h. h)
        (λ fee. fill_shadow-StaysShadow (shadow_price a.limit_price) fee)

  -- A live approval is refused; a shadow approval writes at most one trade, a shadow trade at its
  -- stake.
  pub shadow_execute-StaysShadow :
      (stake : F) (snap : FeatureSnapshot F)
      → (a.mode ≡ Mode.shadow → a.stake_usd ≡ stake)
      → Keeps (StaysShadow stake) (shadow_execute clock a snap)
  unfolding shadow_execute
  shadow_execute-StaysShadow stake snap sized = by_mode a.mode refl
    where
      by_mode :
          (mode : Mode) → a.mode ≡ mode → Keeps (StaysShadow stake) (shadow_in clock a snap mode)
      by_mode Mode.live in_live = λ l h. h
      by_mode Mode.shadow in_shadow =
          subst (λ x. Keeps (StaysShadow x) (shadow_in clock a snap Mode.shadow)) (sized in_shadow)
            (shadow_in-StaysShadow snap)
