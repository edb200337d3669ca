-- ===== src/LiveClient.antt =====
-- engine/live_client.py: live orders behind the venue seam, and crash reconciliation.
pub mod Reconcile
pub mod Sound
pub mod Restart
pub mod Calls
pub mod Placement
pub mod Tracking
pub mod Confirmation
use i_am_not_a_trader_bot.Prelude.Result.{submission_error, assertion_error, Result, err, ok}
use i_am_not_a_trader_bot.Prelude.{
  ◌-◌, ◌&&◌, str_eq, not, ◌==◌, any, ◌+◌, if◌then◌else◌, Bool, ℕ, List, Option, String, ◌∷◌, [],
  some, none, false, true,
}
use i_am_not_a_trader_bot.Prelude.Py.{raise, lift, pure, Exec, ◌>>=◌, ◌>>◌}
use i_am_not_a_trader_bot.Float.{◌≺◌, divide, ◌≼◌, ◌⊖◌, abs, nought, of_ℕ, Float}
use i_am_not_a_trader_bot.Ledger.{
  opened, record_trade, cancelled, failed, Mode, filled, attach_order_id, record_risk_event,
  update_trade_fill, mode_eq, RiskEvent, Ledger,
}
use i_am_not_a_trader_bot.Risk.{Approved}
use i_am_not_a_trader_bot.Signals.{bucket_sec, FeatureSnapshot, Side}
use i_am_not_a_trader_bot.Config.{Config}
use i_am_not_a_trader_bot.Executor.{taker_fee}

-- The normalized `status` of `get_order`; `resting` is 'open', and any other text is taken alike.
pub data OrderState : Type 0 where
  resting done gone : OrderState

pub record OrderStatus (F : Type 0) : Type 0 where
  pub state : OrderState
  pub filled_price : Option F
  pub fee_usd : Option F

pub record RestingOrder (F : Type 0) : Type 0 where
  pub order_id : String
  pub token_id : String
  pub price : F

-- `VenueClient`: each call may change the venue and may raise. A posted order is a GTC limit BUY.
pub record Venue (F V : Type 0) : Type 0 where
  pub resolve_token_id : String → Side → Exec V String
  pub post_order : String → F → F → Exec V String
  pub get_order : String → Exec V (OrderStatus F)
  pub get_open_orders : Exec V (List (RestingOrder F))
  pub cancel_order : String → Exec V (Unit {0})

pub record OpenOrder (F : Type 0) : Type 0 where
  pub trade_id : ℕ
  pub order_id : String
  pub token_id : String
  pub bucket_ts : ℕ
  pub intended_price : F
  pub stake_usd : F
  pub fee_rate : F
  pub fees_enabled : Bool

-- The dict `_orders`, by trade id.
abbrev pub Orders : Type 0 → Type 0
Orders F = List (ℕ × OpenOrder F)

pub record LiveState (F V : Type 0) : Type 0 where
  pub ledger : Ledger F
  pub orders : Orders F
  pub venue : V

module _ {F : Type 0} where
  abbrev pub tracked : ℕ → Orders F → Option (OpenOrder F)
  tracked k [] = none
  tracked k ((j, o) ∷ rest) = if j == k then some o else tracked k rest

  abbrev pub track_order : ℕ → OpenOrder F → Orders F → Orders F
  track_order k o [] = (k, o) ∷ []
  track_order k o ((j, p) ∷ rest) =
      let after = track_order k o rest in if j == k then (j, o) ∷ rest else (j, p) ∷ after

  abbrev pub untrack : ℕ → Orders F → Orders F
  untrack k [] = []
  untrack k ((j, p) ∷ rest) = let after = untrack k rest in if j == k then rest else (j, p) ∷ after

module _ {F V : Type 0} where
  abbrev pub in_ledger : {A : Type 0} → Exec (Ledger F) A → Exec (LiveState F V) A
  in_ledger m s = let (r, l) = m s.ledger in (r, record s { ledger = l })

  abbrev pub at_venue : {A : Type 0} → Exec V A → Exec (LiveState F V) A
  at_venue m s = let (r, v) = m s.venue in (r, record s { venue = v })

  abbrev pub set_orders : (Orders F → Orders F) → Exec (LiveState F V) (Unit {0})
  set_orders f s = (ok tt, record s { orders = f s.orders })

module _ {F V : Type 0} ⦃fl : Float F⦄ (venue : Venue F V) where
  abbrev pub price_match_eps : F
  price_match_eps = fl.decimal 1 3

  abbrev claims : List String → String → Bool
  claims claimed id = any (λ c. str_eq c id) claimed

  abbrev pub is_match : String → F → List String → RestingOrder F → Bool
  is_match token_id price claimed o =
      not (claims claimed o.order_id)
      && str_eq o.token_id token_id
      && abs (o.price ⊖ price) ≺ price_match_eps

  unfoldable pub match_open_order :
      List (RestingOrder F) → String → F → List String → Option (RestingOrder F)
  match_open_order [] token_id price claimed = none
  match_open_order (o ∷ os) token_id price claimed =
      if is_match token_id price claimed o
      then some o
      else match_open_order os token_id price claimed

  abbrev pub or_else : Option F → F → F
  or_else none d = d
  or_else (some x) d = x

  abbrev pub fee_or_formula : Option F → Bool → F → F → F → Result F
  fee_or_formula (some fee) fees_enabled stake_usd fee_rate price = ok fee
  fee_or_formula none fees_enabled stake_usd fee_rate price =
      taker_fee fees_enabled stake_usd fee_rate price

  -- The exchange's price and fee where it reports them, else the intended price and the formula.
  unfoldable pub record_confirmed_fill :
      ℕ → OrderStatus F → F → F → F → Bool → Exec (LiveState F V) (Unit {0})
  record_confirmed_fill trade_id status fallback stake_usd fee_rate fees_enabled = do
    let price = or_else status.filled_price fallback
    fee ← lift (fee_or_formula status.fee_usd fees_enabled stake_usd fee_rate price)
    in_ledger (update_trade_fill trade_id (some price) fee filled)

  abbrev pub event : F → RiskEvent F → Exec (LiveState F V) (Unit {0})
  event now e = in_ledger (record_risk_event now e) >> pure tt

  abbrev pub write_confirmed :
      ℕ → String → F → F → F → Bool → F → OrderStatus F → OrderState → Exec (LiveState F V) Bool
  write_confirmed trade_id order_id intended stake_usd fee_rate fees_enabled now status done = do
    record_confirmed_fill trade_id status intended stake_usd fee_rate fees_enabled
    pure true
  write_confirmed trade_id order_id intended stake_usd fee_rate fees_enabled now status gone = do
    in_ledger (update_trade_fill trade_id (some intended) nought cancelled)
    pure true
  write_confirmed trade_id order_id intended stake_usd fee_rate fees_enabled now status resting = do
    event now (RiskEvent.cancel_not_confirmed trade_id order_id)
    pure false

  -- Cancel, ask again, and write a terminal status only as the venue confirms one.
  unfoldable pub cancel_and_confirm : ℕ → String → F → F → F → Bool → F → Exec (LiveState F V) Bool
  cancel_and_confirm trade_id order_id intended stake_usd fee_rate fees_enabled now = do
    at_venue (venue.cancel_order order_id)
    status ← at_venue (venue.get_order order_id)
    write_confirmed trade_id order_id intended stake_usd fee_rate fees_enabled now status
        status.state

  abbrev pub order_for : ℕ → String → String → Approved F → FeatureSnapshot F → OpenOrder F
  order_for trade_id order_id token_id a snap = record {
    trade_id = trade_id;
    order_id = order_id;
    token_id = token_id;
    bucket_ts = a.bucket_ts;
    intended_price = a.limit_price;
    stake_usd = a.stake_usd;
    fee_rate = snap.fee_rate;
    fees_enabled = snap.fees_enabled;
  }

  -- The end of `execute` and of its recovery: attach the order's id, then track it.
  abbrev pub adopt :
      ℕ → String → String → Approved F → FeatureSnapshot F → Exec (LiveState F V) (Unit {0})
  adopt trade_id order_id token_id a snap = do
    in_ledger (attach_order_id trade_id order_id)
    set_orders (track_order trade_id (order_for trade_id order_id token_id a snap))

  abbrev pub recover_match :
      F
      → ℕ
      → String
      → Approved F
      → FeatureSnapshot F
      → Option (RestingOrder F)
      → Exec (LiveState F V) ℕ
  recover_match clock trade_id token_id a snap (some o) = do
    adopt trade_id o.order_id token_id a snap
    event clock (RiskEvent.ambiguous_submission_recovered trade_id o.order_id)
    pure trade_id
  recover_match clock trade_id token_id a snap none = do
    in_ledger (update_trade_fill trade_id none nought failed)
    raise submission_error

  -- The `except` of `execute`: the order may rest at the venue although `post_order` raised.
  unfoldable pub recover : F → ℕ → String → Approved F → FeatureSnapshot F → Exec (LiveState F V) ℕ
  recover clock trade_id token_id a snap = do
    exchange ← at_venue venue.get_open_orders
    recover_match clock trade_id token_id a snap
        (match_open_order exchange token_id a.limit_price [])

  abbrev pub submitted :
      F
      → ℕ
      → String
      → Approved F
      → FeatureSnapshot F
      → Result String × LiveState F V
      → Result ℕ × LiveState F V
  submitted clock trade_id token_id a snap (ok order_id, s) =
      (do adopt trade_id order_id token_id a snap; pure trade_id) s
  submitted clock trade_id token_id a snap (err e, s) = recover clock trade_id token_id a snap s

  abbrev pub submit : F → ℕ → String → F → Approved F → FeatureSnapshot F → Exec (LiveState F V) ℕ
  submit clock trade_id token_id shares a snap s =
      submitted clock trade_id token_id a snap
        (at_venue (venue.post_order token_id a.limit_price shares) s)

  abbrev pub is_live_mode : Approved F → Bool
  is_live_mode a = mode_eq a.mode Mode.live

  -- `LiveExecutor.execute`: the ledger's row first, the order second.
  unfoldable pub live_execute : F → Approved F → FeatureSnapshot F → Exec (LiveState F V) ℕ
  live_execute clock a snap = if not (is_live_mode a) then raise assertion_error else do
    token_id ← at_venue (venue.resolve_token_id a.market_slug a.side)
    shares ← lift (divide a.stake_usd a.limit_price)
    trade_id ← in_ledger (
        record_trade clock a.bucket_ts a.variant_id a.market_slug a.side Mode.live a.limit_price
          a.stake_usd opened none nought)
    submit clock trade_id token_id shares a snap

  abbrev pub poll_order : ℕ → OpenOrder F → OrderStatus F → OrderState → Exec (LiveState F V) ℕ
  poll_order trade_id o status done = do
    record_confirmed_fill trade_id status o.intended_price o.stake_usd o.fee_rate o.fees_enabled
    set_orders (untrack trade_id)
    pure 1
  poll_order trade_id o status gone = do
    in_ledger (update_trade_fill trade_id (some o.intended_price) nought cancelled)
    set_orders (untrack trade_id)
    pure 0
  poll_order trade_id o status resting = pure 0

  unfoldable pub poll_each : Orders F → Exec (LiveState F V) ℕ
  poll_each [] = pure 0
  poll_each ((trade_id, o) ∷ rest) = do
    status ← at_venue (venue.get_order o.order_id)
    n ← poll_order trade_id o status status.state
    m ← poll_each rest
    pure (n + m)

  unfoldable pub poll_fills : Exec (LiveState F V) ℕ
  poll_fills s = poll_each s.orders s

  -- `close_ts - now <= exit_before_sec`
  abbrev pub past_exit : Config F → F → ℕ → Bool
  past_exit config now bucket_ts =
      (of_ℕ (bucket_ts + bucket_sec) ⊖ now) ≼ of_ℕ config.risk.exit_before_sec

  abbrev pub untrack_if : ℕ → Bool → Exec (LiveState F V) ℕ
  untrack_if trade_id true = do set_orders (untrack trade_id); pure 1
  untrack_if trade_id false = pure 0

  abbrev pub cancel_one : F → ℕ → OpenOrder F → Exec (LiveState F V) ℕ
  cancel_one now trade_id o = do
    terminal ←
        cancel_and_confirm trade_id o.order_id o.intended_price o.stake_usd o.fee_rate
          o.fees_enabled now
    untrack_if trade_id terminal

  unfoldable pub cancel_each : Config F → F → Orders F → Exec (LiveState F V) ℕ
  cancel_each config now [] = pure 0
  cancel_each config now ((trade_id, o) ∷ rest) = do
    n ← (if past_exit config now o.bucket_ts then cancel_one now trade_id o else pure 0)
    m ← cancel_each config now rest
    pure (n + m)

  unfoldable pub cancel_stale : Config F → F → Exec (LiveState F V) ℕ
  cancel_stale config now s = cancel_each config now s.orders s
