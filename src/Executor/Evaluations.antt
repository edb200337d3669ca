-- ===== src/Executor/Evaluations.antt =====
-- The shadow executor writes no evaluation.
use i_am_not_a_trader_bot.Prelude.{ℕ, ◌≡◌, refl, ◌∙◌, Option, Bool-cases, inl, inr, any, none, some}
use i_am_not_a_trader_bot.Prelude.Py.{Exec, pure, lift, ◌>>=◌}
use i_am_not_a_trader_bot.Prelude.Keeps.{Keeps, Keeps->>=}
use i_am_not_a_trader_bot.Float.{Float, nought}
use i_am_not_a_trader_bot.Signals.{FeatureSnapshot}
use i_am_not_a_trader_bot.Ledger.{
  Ledger, TradeStatus, Mode, opened, filled, is_terminal, is_entry, record_trade, update_trade_fill,
}
use i_am_not_a_trader_bot.Risk.{Approved}
use i_am_not_a_trader_bot.Executor.{shadow_price, taker_fee, fill_shadow, shadow_in, shadow_execute}

module _ {F : Type 0} where
  abbrev SameEvaluations : Ledger F → Ledger F → Type 0
  SameEvaluations l l' = l'.evaluations ≡ l.evaluations

  chain :
      {A B : Type 0} (m : Exec (Ledger F) A) (f : A → Exec (Ledger F) B)
      → Keeps SameEvaluations m
      → ((a : A) → Keeps SameEvaluations (f a))
      → Keeps SameEvaluations (m >>= f)
  chain m f = Keeps->>= SameEvaluations m f (λ s t u p q. q ∙ p)

  fill-SameEvaluations :
      (k : ℕ) (price : Option F) (fee : F) (status : TradeStatus)
      → Keeps SameEvaluations (update_trade_fill k price fee status)
  unfolding update_trade_fill
  fill-SameEvaluations k price fee status l = elim (Bool-cases (is_terminal status)) [
    | inl terminal ↦ rw terminal refl
    | inr open_still ↦ rw open_still refl
  ]

module _ {F : Type 0} ⦃fl : Float F⦄ where
  fill_shadow-SameEvaluations :
      (clock price fee : F) (a : Approved F) → Keeps SameEvaluations (fill_shadow clock price fee a)
  unfolding record_trade
  fill_shadow-SameEvaluations clock price fee a =
      chain
        (record_trade clock a.bucket_ts a.variant_id a.market_slug a.side Mode.shadow a.limit_price
          a.stake_usd opened none nought)
        _
        (λ l. elim (Bool-cases (any (is_entry a.bucket_ts a.variant_id Mode.shadow) l.trades)) [
          | inl there ↦ rw there refl
          | inr fresh ↦ rw fresh refl
        ])
        (λ k.
          chain (update_trade_fill k (some price) fee filled) (λ _. pure k)
            (fill-SameEvaluations k (some price) fee filled) (λ _ l. refl))

  shadow_in-SameEvaluations :
      (clock : F) (a : Approved F) (snap : FeatureSnapshot F) (mode : Mode)
      → Keeps SameEvaluations (shadow_in clock a snap mode)
  shadow_in-SameEvaluations clock a snap Mode.live = λ l. refl
  shadow_in-SameEvaluations clock a snap Mode.shadow =
      chain
        (lift (taker_fee snap.fees_enabled a.stake_usd snap.fee_rate (shadow_price a.limit_price)))
        (λ fee. fill_shadow clock (shadow_price a.limit_price) fee a) (λ l. refl)
        (λ fee. fill_shadow-SameEvaluations clock (shadow_price a.limit_price) fee a)

  pub evaluations-shadow_execute :
      (clock : F) (a : Approved F) (snap : FeatureSnapshot F) (l : Ledger F)
      → (shadow_execute clock a snap l).1.evaluations ≡ l.evaluations
  unfolding shadow_execute
  evaluations-shadow_execute clock a snap = shadow_in-SameEvaluations clock a snap a.mode
