-- ===== src/LiveClient/Sound.antt =====
-- The live executor against the ledger's promises: every call keeps the history and the constraints.
use i_am_not_a_trader_bot.Prelude.Py.{◌>>◌, pure, lift, Exec, ◌>>=◌}
use i_am_not_a_trader_bot.LiveClient.{
  match_open_order, order_for, or_else, track_order, untrack_if, fee_or_formula, past_exit, untrack,
  recover_match, submitted, is_live_mode, adopt, poll_order, RestingOrder, write_confirmed, submit,
  cancel_one, OrderState, in_ledger, event, OpenOrder, OrderStatus, recover, cancel_and_confirm,
  poll_each, poll_fills, live_execute, cancel_stale, record_confirmed_fill, cancel_each, at_venue,
  Venue, set_orders, LiveState, Orders, gone, done, resting,
}
use i_am_not_a_trader_bot.Prelude.Result.{submission_error, Result, err, ok}
use i_am_not_a_trader_bot.Prelude.{
  if◌then◌else◌, Bool-cases, String, Bool, Option, ℕ, ◌+◌, ◌∷◌, [], inr, inl, some, none, false,
  true,
}
use i_am_not_a_trader_bot.Ledger.Sound.{
  record_trade-KeepsSound, attach_order_id-KeepsSound, update_trade_fill-KeepsSound, IsSound,
  record_risk_event-KeepsSound, IsSound-refl, KeepsSound, Sound->>=, Sound,
}
use i_am_not_a_trader_bot.Float.{divide, nought, Float}
use i_am_not_a_trader_bot.Ledger.{
  attach_order_id, record_risk_event, record_trade, opened, Mode, failed, cancelled,
  update_trade_fill, filled, TradeStatus, RiskEvent, Ledger,
}
use i_am_not_a_trader_bot.Risk.{Approved}
use i_am_not_a_trader_bot.Config.{Config}
use i_am_not_a_trader_bot.Signals.{FeatureSnapshot}

module _ {F V : Type 0} where
  abbrev pub book : LiveState F V → Ledger F
  book s = s.ledger

  pub in_ledger-Sound :
      {A : Type 0} (m : Exec (Ledger F) A) → KeepsSound m → Sound (book) (in_ledger m)
  in_ledger-Sound m h s = h s.ledger

  pub at_venue-Sound : {A : Type 0} (m : Exec V A) → Sound book (at_venue m)
  at_venue-Sound m s = IsSound-refl s.ledger

  pub set_orders-Sound : (f : Orders F → Orders F) → Sound book (set_orders f)
  set_orders-Sound f s = IsSound-refl s.ledger

  pub pure-Sound : {A : Type 0} (a : A) → Sound book (pure a)
  pure-Sound a s = IsSound-refl s.ledger

  lift-Sound : {A : Type 0} (r : Result A) → Sound book (lift r)
  lift-Sound r s = IsSound-refl s.ledger

  pub after :
      {A B : Type 0} (m : Exec (LiveState F V) A) (f : A → Exec (LiveState F V) B)
      → Sound book m
      → ((a : A) → Sound book (f a))
      → Sound book (m >>= f)
  after m f = Sound->>= book m f

module _ {F V : Type 0} ⦃fl : Float F⦄ (venue : Venue F V) where
  pub fill-Sound :
      (k : ℕ) (price : Option F) (fee : F) (status : TradeStatus)
      → Sound (book {V = V}) (in_ledger (update_trade_fill k price fee status))
  fill-Sound k price fee status =
      in_ledger-Sound (update_trade_fill k price fee status)
        (update_trade_fill-KeepsSound k price fee status)

  event-Sound : (now : F) (e : RiskEvent F) → Sound book (event venue now e)
  event-Sound now e =
      after (in_ledger (record_risk_event now e)) _
        (in_ledger-Sound (record_risk_event now e) (record_risk_event-KeepsSound now e))
        (λ _. pure-Sound tt)

  untracking-Sound : (k n : ℕ) → Sound (book {F = F} {V = V}) (do set_orders (untrack k); pure n)
  untracking-Sound k n =
      after (set_orders (untrack k)) (λ _. pure n) (set_orders-Sound (untrack k))
        (λ _. pure-Sound n)

  pub record_confirmed_fill-Sound :
      (k : ℕ) (status : OrderStatus F) (fallback stake_usd fee_rate : F) (fees_enabled : Bool)
      → Sound book (record_confirmed_fill venue k status fallback stake_usd fee_rate fees_enabled)
  unfolding record_confirmed_fill
  record_confirmed_fill-Sound k status fallback stake_usd fee_rate fees_enabled =
      after
        (lift (
          fee_or_formula venue status.fee_usd fees_enabled stake_usd fee_rate
            (or_else venue status.filled_price fallback)))
        _
        (lift-Sound (
          fee_or_formula venue status.fee_usd fees_enabled stake_usd fee_rate
            (or_else venue status.filled_price fallback)))
        (λ fee. fill-Sound k (some (or_else venue status.filled_price fallback)) fee filled)

  write_confirmed-Sound :
      (k : ℕ) (order_id : String) (intended stake_usd fee_rate : F) (fees_enabled : Bool) (now : F)
      (status : OrderStatus F) (state : OrderState)
      → Sound book (
          write_confirmed venue k order_id intended stake_usd fee_rate fees_enabled now status
            state)
  write_confirmed-Sound k order_id intended stake_usd fee_rate fees_enabled now status done =
      after (record_confirmed_fill venue k status intended stake_usd fee_rate fees_enabled) _
        (record_confirmed_fill-Sound k status intended stake_usd fee_rate fees_enabled)
        (λ _. pure-Sound true)
  write_confirmed-Sound k order_id intended stake_usd fee_rate fees_enabled now status gone =
      after (in_ledger (update_trade_fill k (some intended) nought cancelled)) _
        (fill-Sound k (some intended) nought cancelled) (λ _. pure-Sound true)
  write_confirmed-Sound k order_id intended stake_usd fee_rate fees_enabled now status resting =
      after (event venue now (RiskEvent.cancel_not_confirmed k order_id)) _
        (event-Sound now (RiskEvent.cancel_not_confirmed k order_id)) (λ _. pure-Sound false)

  pub cancel_and_confirm-Sound :
      (k : ℕ) (order_id : String) (intended stake_usd fee_rate : F) (fees_enabled : Bool) (now : F)
      → Sound book
          (cancel_and_confirm venue k order_id intended stake_usd fee_rate fees_enabled now)
  unfolding cancel_and_confirm
  cancel_and_confirm-Sound k order_id intended stake_usd fee_rate fees_enabled now =
      after (at_venue (venue.cancel_order order_id)) _
        (at_venue-Sound (venue.cancel_order order_id))
        (λ _.
          after (at_venue (venue.get_order order_id)) _ (at_venue-Sound (venue.get_order order_id))
            (λ status.
              write_confirmed-Sound k order_id intended stake_usd fee_rate fees_enabled now status
                status.state))

  adopt-Sound :
      (k : ℕ) (order_id token_id : String) (a : Approved F) (snap : FeatureSnapshot F)
      → Sound book (adopt venue k order_id token_id a snap)
  adopt-Sound k order_id token_id a snap =
      after (in_ledger (attach_order_id k order_id)) _
        (in_ledger-Sound (attach_order_id k order_id) (attach_order_id-KeepsSound k order_id))
        (λ _. set_orders-Sound (track_order k (order_for venue k order_id token_id a snap)))

  recover_match-Sound :
      (clock : F) (k : ℕ) (token_id : String) (a : Approved F) (snap : FeatureSnapshot F)
      (found : Option (RestingOrder F))
      → Sound book (recover_match venue clock k token_id a snap found)
  recover_match-Sound clock k token_id a snap none =
      after (in_ledger (update_trade_fill k none nought failed)) _ (fill-Sound k none nought failed)
        (λ _. lift-Sound {A = ℕ} (err submission_error))
  recover_match-Sound clock k token_id a snap (some o) =
      after (adopt venue k o.order_id token_id a snap) _ (adopt-Sound k o.order_id token_id a snap)
        (λ _.
          after (event venue clock (RiskEvent.ambiguous_submission_recovered k o.order_id)) _
            (event-Sound clock (RiskEvent.ambiguous_submission_recovered k o.order_id))
            (λ _. pure-Sound k))

  recover-Sound :
      (clock : F) (k : ℕ) (token_id : String) (a : Approved F) (snap : FeatureSnapshot F)
      → Sound book (recover venue clock k token_id a snap)
  unfolding recover
  recover-Sound clock k token_id a snap =
      after (at_venue venue.get_open_orders) _ (at_venue-Sound venue.get_open_orders) (λ exchange.
        recover_match-Sound clock k token_id a snap
          (match_open_order venue exchange token_id a.limit_price []))

  submitted-Sound :
      (clock : F) (k : ℕ) (token_id : String) (a : Approved F) (snap : FeatureSnapshot F)
      (r : Result String) (s : LiveState F V)
      → IsSound s.ledger (submitted venue clock k token_id a snap (r, s)).1.ledger
  submitted-Sound clock k token_id a snap (ok order_id) s =
      after (adopt venue k order_id token_id a snap) _ (adopt-Sound k order_id token_id a snap)
        (λ _. pure-Sound k) s
  submitted-Sound clock k token_id a snap (err e) s = recover-Sound clock k token_id a snap s

  submit-Sound :
      (clock : F) (k : ℕ) (token_id : String) (shares : F) (a : Approved F)
      (snap : FeatureSnapshot F)
      → Sound book (submit venue clock k token_id shares a snap)
  submit-Sound clock k token_id shares a snap s =
      let (r, v) = venue.post_order token_id a.limit_price shares s.venue in
      submitted-Sound clock k token_id a snap r (record s { venue = v })

  -- `execute` keeps the ledger's history and its constraints, whatever the venue does.
  pub live_execute-Sound :
      (clock : F) (a : Approved F) (snap : FeatureSnapshot F)
      → Sound book (live_execute venue clock a snap)
  unfolding live_execute
  live_execute-Sound clock a snap s = elim (Bool-cases (is_live_mode venue a)) [
    | inr in_shadow ↦ rw in_shadow (IsSound-refl s.ledger)
    | inl in_live ↦ rw in_live (placed s)
  ]
    where
      row : Exec (LiveState F V) ℕ
      row = in_ledger (
          record_trade clock a.bucket_ts a.variant_id a.market_slug a.side Mode.live a.limit_price
            a.stake_usd opened none nought)

      row-Sound : Sound book row
      row-Sound =
          in_ledger-Sound
            (record_trade clock a.bucket_ts a.variant_id a.market_slug a.side Mode.live
              a.limit_price a.stake_usd opened none nought)
            (record_trade-KeepsSound clock a.bucket_ts a.variant_id a.market_slug a.side Mode.live
              a.limit_price a.stake_usd opened none nought)

      placed : Sound book (do
        token_id ← at_venue (venue.resolve_token_id a.market_slug a.side)
        shares ← lift (divide a.stake_usd a.limit_price)
        trade_id ← row
        submit venue clock trade_id token_id shares a snap)
      placed =
          after (at_venue (venue.resolve_token_id a.market_slug a.side)) _
            (at_venue-Sound (venue.resolve_token_id a.market_slug a.side))
            (λ token_id.
              after (lift (divide a.stake_usd a.limit_price)) _
                (lift-Sound (divide a.stake_usd a.limit_price))
                (λ shares.
                  after row _ row-Sound (λ k. submit-Sound clock k token_id shares a snap)))

  poll_order-Sound :
      (k : ℕ) (o : OpenOrder F) (status : OrderStatus F) (state : OrderState)
      → Sound book (poll_order venue k o status state)
  poll_order-Sound k o status done =
      after
        (record_confirmed_fill venue k status o.intended_price o.stake_usd o.fee_rate
          o.fees_enabled)
        _
        (record_confirmed_fill-Sound k status o.intended_price o.stake_usd o.fee_rate
          o.fees_enabled)
        (λ _. untracking-Sound k 1)
  poll_order-Sound k o status gone =
      after (in_ledger (update_trade_fill k (some o.intended_price) nought cancelled)) _
        (fill-Sound k (some o.intended_price) nought cancelled) (λ _. untracking-Sound k 0)
  poll_order-Sound k o status resting = pure-Sound {A = ℕ} 0

  poll_each-Sound : (os : Orders F) → Sound book (poll_each venue os)
  unfolding poll_each
  poll_each-Sound [] = pure-Sound {A = ℕ} 0
  poll_each-Sound ((k, o) ∷ rest) =
      after (at_venue (venue.get_order o.order_id)) _ (at_venue-Sound (venue.get_order o.order_id))
        (λ status.
          after (poll_order venue k o status status.state) _
            (poll_order-Sound k o status status.state)
            (λ n. after (poll_each venue rest) _ (poll_each-Sound rest) (λ m. pure-Sound (n + m))))

  -- `poll_fills` keeps the ledger's history and its constraints.
  pub poll_fills-Sound : Sound book (poll_fills venue)
  unfolding poll_fills
  poll_fills-Sound s = poll_each-Sound s.orders s

  untrack_if-Sound : (k : ℕ) (terminal : Bool) → Sound book (untrack_if venue k terminal)
  untrack_if-Sound k true = untracking-Sound k 1
  untrack_if-Sound k false = pure-Sound {A = ℕ} 0

  cancel_one-Sound : (now : F) (k : ℕ) (o : OpenOrder F) → Sound book (cancel_one venue now k o)
  cancel_one-Sound now k o =
      after
        (cancel_and_confirm venue k o.order_id o.intended_price o.stake_usd o.fee_rate
          o.fees_enabled now)
        _
        (cancel_and_confirm-Sound k o.order_id o.intended_price o.stake_usd o.fee_rate
          o.fees_enabled now)
        (untrack_if-Sound k)

  cancel_each-Sound :
      (config : Config F) (now : F) (os : Orders F) → Sound book (cancel_each venue config now os)
  unfolding cancel_each
  cancel_each-Sound config now [] = pure-Sound {A = ℕ} 0
  cancel_each-Sound config now ((k, o) ∷ rest) =
      after (one (past_exit venue config now o.bucket_ts)) _
        (one-Sound (past_exit venue config now o.bucket_ts))
        (λ n.
          after (cancel_each venue config now rest) _ (cancel_each-Sound config now rest)
            (λ m. pure-Sound (n + m)))
    where
      one : Bool → Exec (LiveState F V) ℕ
      one late = if late then cancel_one venue now k o else pure 0

      one-Sound : (late : Bool) → Sound book (one late)
      one-Sound true = cancel_one-Sound now k o
      one-Sound false = pure-Sound {A = ℕ} 0

  -- `cancel_stale` keeps the ledger's history and its constraints.
  pub cancel_stale-Sound :
      (config : Config F) (now : F) → Sound book (cancel_stale venue config now)
  unfolding cancel_stale
  cancel_stale-Sound config now s = cancel_each-Sound config now s.orders s
