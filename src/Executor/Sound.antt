-- ===== src/Executor/Sound.antt =====
-- The shadow executor and the poller against the ledger's promises.
use i_am_not_a_trader_bot.Prelude.{
  ℕ, Bool-cases, List, Option, String, ◌+◌, ◌∷◌, [], inr, inl, some, none,
}
use i_am_not_a_trader_bot.Float.{nought, Float}
use i_am_not_a_trader_bot.Executor.{
  timed_out, due, shadow_price, taker_fee, unresolved_buckets, shadow_in, fill_shadow, Market, poll,
  poll_markets, settle, shadow_execute,
}
use i_am_not_a_trader_bot.Ledger.{
  record_risk_event, unresolved_timeout, filled, update_trade_fill, real, record_resolution, opened,
  Mode, Ledger,
}
use i_am_not_a_trader_bot.Risk.{Approved}
use i_am_not_a_trader_bot.Ledger.Sound.{
  record_risk_event-KeepsSound, update_trade_fill-KeepsSound, record_resolution-KeepsSound,
  record_trade-KeepsSound, IsSound-refl, KeepsSound, Sound->>=, Sound,
}
use i_am_not_a_trader_bot.Prelude.Py.{lift, pure}
use i_am_not_a_trader_bot.Signals.{Side, FeatureSnapshot}

module _ {F : Type 0} ⦃fl : Float F⦄ where
  abbrev whole : Ledger F → Ledger F
  whole l = l

  unchanged : (a : ℕ) → Sound whole (pure a)
  unchanged a l = IsSound-refl l

  fill_shadow-KeepsSound :
      (clock price fee : F) (a : Approved F) → Sound whole (fill_shadow clock price fee a)
  fill_shadow-KeepsSound clock price fee a =
      Sound->>= whole _ _
        (record_trade-KeepsSound clock a.bucket_ts a.variant_id a.market_slug a.side Mode.shadow
          a.limit_price a.stake_usd opened none nought)
        (λ k.
          Sound->>= whole (update_trade_fill k (some price) fee filled) (λ _. pure k)
            (update_trade_fill-KeepsSound k (some price) fee filled) (λ _. unchanged k))

  shadow_in-KeepsSound :
      (clock : F) (a : Approved F) (snap : FeatureSnapshot F) (mode : Mode)
      → Sound whole (shadow_in clock a snap mode)
  shadow_in-KeepsSound clock a snap Mode.live = IsSound-refl
  shadow_in-KeepsSound clock a snap Mode.shadow =
      Sound->>= whole
        (lift (taker_fee snap.fees_enabled a.stake_usd snap.fee_rate (shadow_price a.limit_price)))
        (λ fee. fill_shadow clock (shadow_price a.limit_price) fee a) IsSound-refl
        (λ fee. fill_shadow-KeepsSound clock (shadow_price a.limit_price) fee a)

  pub shadow_execute-KeepsSound :
      (clock : F) (a : Approved F) (snap : FeatureSnapshot F)
      → KeepsSound (shadow_execute clock a snap)
  unfolding shadow_execute
  shadow_execute-KeepsSound clock a snap = shadow_in-KeepsSound clock a snap a.mode

  settle-KeepsSound :
      (timeout_sec now : F) (k : Market) (answer : Option Side)
      → Sound whole (settle timeout_sec now k answer)
  unfolding settle
  settle-KeepsSound timeout_sec now (b, slug) (some side) =
      Sound->>= whole (record_resolution b slug (real side) (some now)) (λ _. pure 1)
        (record_resolution-KeepsSound b slug (real side) (some now)) (λ _. unchanged 1)
  settle-KeepsSound timeout_sec now (b, slug) none = λ l.
      elim (Bool-cases (timed_out timeout_sec now b)) [
        | inr early ↦ rw early (IsSound-refl l)
        | inl late ↦ rw late (
            Sound->>= whole (record_resolution b slug unresolved_timeout (some now)) _
              (record_resolution-KeepsSound b slug unresolved_timeout (some now))
              (λ _.
                Sound->>= whole (record_risk_event now _) (λ _. pure 1)
                  (record_risk_event-KeepsSound now _) (λ _. unchanged 1))
              l)
      ]

  poll_markets-KeepsSound :
      (gamma : String → Option Side) (timeout_sec now : F) (ks : List Market)
      → Sound whole (poll_markets gamma timeout_sec now ks)
  unfolding poll_markets
  poll_markets-KeepsSound gamma timeout_sec now [] = unchanged 0
  poll_markets-KeepsSound gamma timeout_sec now ((b, slug) ∷ rest) = λ l.
      elim (Bool-cases (due now b)) [
        | inr early ↦ rw early (poll_markets-KeepsSound gamma timeout_sec now rest l)
        | inl closed ↦ rw closed (
            Sound->>= whole (settle timeout_sec now (b, slug) (gamma slug)) _
              (settle-KeepsSound timeout_sec now (b, slug) (gamma slug))
              (λ n.
                Sound->>= whole (poll_markets gamma timeout_sec now rest) (λ m. pure (n + m))
                  (poll_markets-KeepsSound gamma timeout_sec now rest) (λ m. unchanged (n + m)))
              l)
      ]

  -- A poll keeps the ledger's history and its constraints.
  pub poll-KeepsSound :
      (gamma : String → Option Side) (timeout_sec now : F) → KeepsSound (poll gamma timeout_sec now)
  unfolding poll
  poll-KeepsSound gamma timeout_sec now l =
      poll_markets-KeepsSound gamma timeout_sec now (unresolved_buckets l) l
