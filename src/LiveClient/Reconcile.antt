-- ===== src/LiveClient/Reconcile.antt =====
-- `LiveExecutor.reconcile_on_startup`: the ledger's open live rows against the venue's orders.
use i_am_not_a_trader_bot.Prelude.{if◌then◌else◌, ◌&&◌, keep, ◌∷◌, [], some, none, false, true}
use i_am_not_a_trader_bot.Prelude.Py.{gets, ◌>>=◌, ◌>>◌}
use i_am_not_a_trader_bot.LiveClient.{
  str_eq, any, done, gone, resting, past_exit, track_order, set_orders, record_confirmed_fill,
  nought, OrderState, cancel_and_confirm, match_open_order, Option, Bool, pure, OrderStatus,
  OpenOrder, String, at_venue, in_ledger, RestingOrder, RiskEvent, Ledger, List, Exec, Config,
  Venue, Float, LiveState,
}
use i_am_not_a_trader_bot.Ledger.{
  open_trades, is_opened, cancelled, failed, update_trade_fill, Mode, record_risk_event, mode_eq,
  Trade,
}

module _ {F V : Type 0} ⦃fl : Float F⦄ (venue : Venue F V) (config : Config F) (now : F) where
  abbrev pub event : RiskEvent F → Exec (LiveState F V) (Unit {0})
  event e = in_ledger (record_risk_event now e) >> pure tt

  -- An adopted order: the fee rate is unknown after a crash.
  abbrev pub adopted : Trade F → String → String → OpenOrder F
  adopted t order_id token_id = record {
    trade_id = t.id;
    order_id = order_id;
    token_id = token_id;
    bucket_ts = t.bucket_ts;
    intended_price = t.intended_price;
    stake_usd = t.stake_usd;
    fee_rate = nought;
    fees_enabled = false;
  }

  -- An order that rests at the venue: cancel it late in its bucket, else track it. The result of
  -- `_cancel_and_confirm` is dropped, as in the source.
  abbrev pub place : Trade F → String → String → Bool → Exec (LiveState F V) (Unit {0})
  place t token_id order_id true = do
    cancel_and_confirm venue t.id order_id t.intended_price t.stake_usd nought false now
    event (RiskEvent.reconcile_stale_cancelled t.id order_id)
  place t token_id order_id false = do
    set_orders (track_order t.id (adopted t order_id token_id))
    event (RiskEvent.reconcile_adopted t.id order_id)

  abbrev pub reconcile_known :
      Trade F → String → String → OrderStatus F → OrderState → Exec (LiveState F V) (Unit {0})
  reconcile_known t token_id order_id status done = do
    record_confirmed_fill venue t.id status t.intended_price t.stake_usd nought false
    event (RiskEvent.reconcile_filled t.id order_id)
  reconcile_known t token_id order_id status gone = do
    in_ledger (update_trade_fill t.id (some t.intended_price) nought cancelled)
    event (RiskEvent.reconcile_cancelled t.id order_id)
  reconcile_known t token_id order_id status resting =
      place t token_id order_id (past_exit venue config now t.bucket_ts)

  abbrev pub reconcile_matched :
      Trade F → String → List String → Option (RestingOrder F) → Exec (LiveState F V) (List String)
  reconcile_matched t token_id claimed none = do
    in_ledger (update_trade_fill t.id none nought failed)
    event (RiskEvent.reconcile_orphan_ledger t.id)
    pure claimed
  reconcile_matched t token_id claimed (some o) = do
    place t token_id o.order_id (past_exit venue config now t.bucket_ts)
    pure (o.order_id ∷ claimed)

  -- One row of the loop; the result is the set of claimed order ids.
  abbrev pub reconcile_row :
      List (RestingOrder F)
      → List String
      → Trade F
      → String
      → Option String
      → Exec (LiveState F V) (List String)
  reconcile_row exchange claimed t token_id (some order_id) = do
    status ← at_venue (venue.get_order order_id)
    reconcile_known t token_id order_id status status.state
    pure (order_id ∷ claimed)
  reconcile_row exchange claimed t token_id none =
      reconcile_matched t token_id claimed
        (match_open_order venue exchange token_id t.intended_price claimed)

  unfoldable pub reconcile_rows :
      List (RestingOrder F) → List String → List (Trade F) → Exec (LiveState F V) (List String)
  reconcile_rows exchange claimed [] = pure claimed
  reconcile_rows exchange claimed (t ∷ ts) = do
    token_id ← at_venue (venue.resolve_token_id t.market_slug t.side)
    now_claimed ← reconcile_row exchange claimed t token_id t.order_id
    reconcile_rows exchange now_claimed ts

  -- The orders that no row claims are cancelled.
  unfoldable pub cancel_orphans :
      List String → List (RestingOrder F) → Exec (LiveState F V) (Unit {0})
  cancel_orphans claimed [] = pure tt
  cancel_orphans claimed (o ∷ os) =
      if any (λ c. str_eq c o.order_id) claimed then cancel_orphans claimed os else (do
        at_venue (venue.cancel_order o.order_id)
        event (RiskEvent.reconcile_orphan_exchange o.order_id)
        cancel_orphans claimed os)

  abbrev pub open_live : Ledger F → List (Trade F)
  open_live l =
      keep (λ (t : Trade F). mode_eq t.mode Mode.live && is_opened t.status)
        (open_trades none none l)

  unfoldable pub reconcile_on_startup : Exec (LiveState F V) (Unit {0})
  reconcile_on_startup = do
    exchange ← at_venue venue.get_open_orders
    rows ← gets (λ (s : LiveState F V). open_live s.ledger)
    claimed ← reconcile_rows exchange [] rows
    cancel_orphans claimed exchange
