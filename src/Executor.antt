-- ===== src/Executor.antt =====
-- engine/executor.py: shadow fills, and the polling of outcomes after a market's close.
pub mod Sound
pub mod Fills
pub mod Markets
pub mod Polls
pub mod Outcomes
pub mod Evaluations
pub mod Shadow
use i_am_not_a_trader_bot.Prelude.Result.{map_ok, assertion_error, Result, ok}
use i_am_not_a_trader_bot.Prelude.{
  str_eq, ◌+◌, ltb, any, ◌&&◌, if◌then◌else◌, not, ◌==◌, Option, Bool, String, List, ◌∷◌, [], some,
  none, false, true, ℕ,
}
use i_am_not_a_trader_bot.Ledger.{
  RiskEvent, filled, record_risk_event, update_trade_fill, opened, unresolved_timeout, real,
  record_trade, record_resolution, is_resolution, Trade, Resolution, Mode, Ledger,
}
use i_am_not_a_trader_bot.Float.{divide, ◌⊗◌, ◌⊖◌, of_ℕ, ◌⊕◌, nought, ◌≺◌, min, Float}
use i_am_not_a_trader_bot.Risk.{Approved}
use i_am_not_a_trader_bot.Signals.{bucket_sec, Side, FeatureSnapshot}
use i_am_not_a_trader_bot.Prelude.Py.{lift, raise, pure, Exec}
use i_am_not_a_trader_bot.Prelude.Py.{◌>>=◌, ◌>>◌}

abbrev pub max_fill_price : {F : Type 0} ⦃fl : Float F⦄ → F
max_fill_price ⦃fl⦄ = fl.decimal 99 2

abbrev pub tick : {F : Type 0} ⦃fl : Float F⦄ → F
tick ⦃fl⦄ = fl.decimal 1 2

module _ {F : Type 0} ⦃fl : Float F⦄ where
  abbrev pub shadow_price : F → F
  shadow_price limit_price = min (limit_price ⊕ tick) max_fill_price

  -- shares * fee_rate * p * (1 - p), where the market charges fees
  unfoldable pub taker_fee : Bool → F → F → F → Result F
  taker_fee false stake_usd fee_rate price = ok nought
  taker_fee true stake_usd fee_rate price =
      map_ok (λ shares. shares ⊗ fee_rate ⊗ price ⊗ (of_ℕ 1 ⊖ price)) (divide stake_usd price)

  -- The row, and its fill at once.
  abbrev pub fill_shadow : F → F → F → Approved F → Exec (Ledger F) ℕ
  fill_shadow clock price fee a = do
    trade_id ←
        record_trade clock a.bucket_ts a.variant_id a.market_slug a.side Mode.shadow a.limit_price
          a.stake_usd opened none nought
    update_trade_fill trade_id (some price) fee filled
    pure trade_id

  abbrev pub shadow_in : F → Approved F → FeatureSnapshot F → Mode → Exec (Ledger F) ℕ
  shadow_in clock a snap Mode.live = raise assertion_error
  shadow_in clock a snap Mode.shadow = do
    let price = shadow_price a.limit_price
    fee ← lift (taker_fee snap.fees_enabled a.stake_usd snap.fee_rate price)
    fill_shadow clock price fee a

  -- `ShadowExecutor.execute`; `clock` is what `self._clock()` returns.
  unfoldable pub shadow_execute : F → Approved F → FeatureSnapshot F → Exec (Ledger F) ℕ
  shadow_execute clock a snap = shadow_in clock a snap a.mode

-- The key of a market, (bucket_ts, market_slug).
abbrev pub Market : Type 0
Market = ℕ × String

abbrev pub same_key : Market → Market → Bool
same_key (b, s) (c, t) = b == c && str_eq s t

-- SELECT DISTINCT
abbrev pub add_distinct : Market → List Market → List Market
add_distinct k ks = if any (same_key k) ks then ks else k ∷ ks

-- ORDER BY t.bucket_ts
abbrev pub insert_by_bucket : Market → List Market → List Market
insert_by_bucket k [] = k ∷ []
insert_by_bucket k (j ∷ js) =
    let rest = insert_by_bucket k js in if ltb j.0 k.0 then j ∷ rest else k ∷ j ∷ js

abbrev pub sort_by_bucket : List Market → List Market
sort_by_bucket [] = []
sort_by_bucket (k ∷ ks) = insert_by_bucket k (sort_by_bucket ks)

module _ {F : Type 0} where
  -- The market of every trade that has no resolution row.
  abbrev pub unresolved_from : List (Resolution F) → List (Trade F) → List Market
  unresolved_from rs [] = []
  unresolved_from rs (t ∷ ts) =
      let rest = unresolved_from rs ts in
      if any (is_resolution t.bucket_ts t.market_slug) rs
      then rest
      else add_distinct (t.bucket_ts, t.market_slug) rest

  unfoldable pub unresolved_buckets : Ledger F → List Market
  unresolved_buckets l = sort_by_bucket (unresolved_from l.resolutions l.trades)

module _ {F : Type 0} ⦃fl : Float F⦄ where
  abbrev due : F → ℕ → Bool
  due now bucket = not (now ≺ of_ℕ (bucket + bucket_sec))

  abbrev timed_out : F → F → ℕ → Bool
  timed_out timeout_sec now bucket = timeout_sec ≺ (now ⊖ of_ℕ (bucket + bucket_sec))

  -- One market of `poll`, once it is due: `outcome` is what Gamma answered, and the result is the
  -- number of rows written.
  unfoldable pub settle : F → F → Market → Option Side → Exec (Ledger F) ℕ
  settle timeout_sec now (bucket, slug) (some side) = do
    record_resolution bucket slug (real side) (some now)
    pure 1
  settle timeout_sec now (bucket, slug) none =
      if timed_out timeout_sec now bucket
      then (do
        record_resolution bucket slug unresolved_timeout (some now)
        record_risk_event now (RiskEvent.resolution_timeout slug timeout_sec)
        pure 1)
      else pure 0

  -- The loop of `poll`. `gamma` answers `resolve_outcome(slug, now)`.
  unfoldable pub poll_markets : (String → Option Side) → F → F → List Market → Exec (Ledger F) ℕ
  poll_markets gamma timeout_sec now [] = pure 0
  poll_markets gamma timeout_sec now ((bucket, slug) ∷ rest) =
      if due now bucket
      then (do
        n ← settle timeout_sec now (bucket, slug) (gamma slug)
        m ← poll_markets gamma timeout_sec now rest
        pure (n + m))
      else poll_markets gamma timeout_sec now rest

  unfoldable pub poll : (String → Option Side) → F → F → Exec (Ledger F) ℕ
  poll gamma timeout_sec now l = poll_markets gamma timeout_sec now (unresolved_buckets l) l
