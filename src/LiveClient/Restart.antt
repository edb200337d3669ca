-- ===== src/LiveClient/Restart.antt =====
-- The reconciliation at a restart against the ledger's promises.
use i_am_not_a_trader_bot.Prelude.{
  List, [], ◌∷◌, Bool, true, false, Option, none, some, String, Bool-cases, inl, inr, any, str_eq,
}
use i_am_not_a_trader_bot.Float.{Float, nought}
use i_am_not_a_trader_bot.Config.{Config}
use i_am_not_a_trader_bot.Ledger.{
  Trade, RiskEvent, cancelled, failed, update_trade_fill, record_risk_event,
}
use i_am_not_a_trader_bot.Ledger.Sound.{Sound, record_risk_event-KeepsSound}
use i_am_not_a_trader_bot.LiveClient.{
  Venue, OrderStatus, OrderState, done, gone, resting, RestingOrder, in_ledger, at_venue,
  set_orders, track_order, past_exit, cancel_and_confirm, record_confirmed_fill, match_open_order,
}
use i_am_not_a_trader_bot.LiveClient.Reconcile.{
  event, adopted, place, reconcile_known, reconcile_matched, reconcile_row, reconcile_rows,
  cancel_orphans, open_live, reconcile_on_startup,
}
use i_am_not_a_trader_bot.LiveClient.Sound.{
  book, in_ledger-Sound, at_venue-Sound, set_orders-Sound, pure-Sound, after, fill-Sound,
  record_confirmed_fill-Sound, cancel_and_confirm-Sound,
}

module _ {F V : Type 0} ⦃fl : Float F⦄ (venue : Venue F V) (config : Config F) (now : F) where
  event-Sound : (e : RiskEvent F) → Sound (book {V = V}) (event venue config now e)
  event-Sound e =
      after (in_ledger (record_risk_event now e)) _
        (in_ledger-Sound (record_risk_event now e) (record_risk_event-KeepsSound now e))
        (λ _. pure-Sound tt)

  place-Sound :
      (t : Trade F) (token_id order_id : String) (late : Bool)
      → Sound (book {V = V}) (place venue config now t token_id order_id late)
  place-Sound t token_id order_id true =
      after (cancel_and_confirm venue t.id order_id t.intended_price t.stake_usd nought false now)
        (λ _. event venue config now (RiskEvent.reconcile_stale_cancelled t.id order_id))
        (cancel_and_confirm-Sound venue t.id order_id t.intended_price t.stake_usd nought false now)
        (λ _. event-Sound (RiskEvent.reconcile_stale_cancelled t.id order_id))
  place-Sound t token_id order_id false =
      after (set_orders (track_order t.id (adopted venue config now t order_id token_id)))
        (λ _. event venue config now (RiskEvent.reconcile_adopted t.id order_id))
        (set_orders-Sound (track_order t.id (adopted venue config now t order_id token_id)))
        (λ _. event-Sound (RiskEvent.reconcile_adopted t.id order_id))

  reconcile_known-Sound :
      (t : Trade F) (token_id order_id : String) (status : OrderStatus F) (state : OrderState)
      → Sound (book {V = V}) (reconcile_known venue config now t token_id order_id status state)
  reconcile_known-Sound t token_id order_id status done =
      after (record_confirmed_fill venue t.id status t.intended_price t.stake_usd nought false) _
        (record_confirmed_fill-Sound venue t.id status t.intended_price t.stake_usd nought false)
        (λ _. event-Sound (RiskEvent.reconcile_filled t.id order_id))
  reconcile_known-Sound t token_id order_id status gone =
      after (in_ledger (update_trade_fill t.id (some t.intended_price) nought cancelled)) _
        (fill-Sound venue t.id (some t.intended_price) nought cancelled)
        (λ _. event-Sound (RiskEvent.reconcile_cancelled t.id order_id))
  reconcile_known-Sound t token_id order_id status resting =
      place-Sound t token_id order_id (past_exit venue config now t.bucket_ts)

  reconcile_matched-Sound :
      (t : Trade F) (token_id : String) (claimed : List String) (found : Option (RestingOrder F))
      → Sound (book {V = V}) (reconcile_matched venue config now t token_id claimed found)
  reconcile_matched-Sound t token_id claimed none =
      after (in_ledger (update_trade_fill t.id none nought failed)) _
        (fill-Sound venue t.id none nought failed)
        (λ _.
          after (event venue config now (RiskEvent.reconcile_orphan_ledger t.id)) _
            (event-Sound (RiskEvent.reconcile_orphan_ledger t.id)) (λ _. pure-Sound claimed))
  reconcile_matched-Sound t token_id claimed (some o) =
      after (place venue config now t token_id o.order_id (past_exit venue config now t.bucket_ts))
        _ (place-Sound t token_id o.order_id (past_exit venue config now t.bucket_ts))
        (λ _. pure-Sound (o.order_id ∷ claimed))

  reconcile_row-Sound :
      (exchange : List (RestingOrder F)) (claimed : List String) (t : Trade F) (token_id : String)
      (known : Option String)
      → Sound (book {V = V}) (reconcile_row venue config now exchange claimed t token_id known)
  reconcile_row-Sound exchange claimed t token_id none =
      reconcile_matched-Sound t token_id claimed
        (match_open_order venue exchange token_id t.intended_price claimed)
  reconcile_row-Sound exchange claimed t token_id (some order_id) =
      after (at_venue (venue.get_order order_id)) _ (at_venue-Sound (venue.get_order order_id))
        (λ status.
          after (reconcile_known venue config now t token_id order_id status status.state) _
            (reconcile_known-Sound t token_id order_id status status.state)
            (λ _. pure-Sound (order_id ∷ claimed)))

  reconcile_rows-Sound :
      (exchange : List (RestingOrder F)) (claimed : List String) (ts : List (Trade F))
      → Sound (book {V = V}) (reconcile_rows venue config now exchange claimed ts)
  unfolding reconcile_rows
  reconcile_rows-Sound exchange claimed [] = pure-Sound claimed
  reconcile_rows-Sound exchange claimed (t ∷ ts) =
      after (at_venue (venue.resolve_token_id t.market_slug t.side)) _
        (at_venue-Sound (venue.resolve_token_id t.market_slug t.side))
        (λ token_id.
          after (reconcile_row venue config now exchange claimed t token_id t.order_id) _
            (reconcile_row-Sound exchange claimed t token_id t.order_id)
            (λ now_claimed. reconcile_rows-Sound exchange now_claimed ts))

  cancel_orphans-Sound :
      (claimed : List String) (os : List (RestingOrder F))
      → Sound (book {V = V}) (cancel_orphans venue config now claimed os)
  unfolding cancel_orphans
  cancel_orphans-Sound claimed [] s = pure-Sound {V = V} tt s
  cancel_orphans-Sound claimed (o ∷ os) s =
      elim (Bool-cases (any (λ c. str_eq c o.order_id) claimed)) [
        | inl known ↦ rw known (cancel_orphans-Sound claimed os s)
        | inr orphan ↦ rw orphan (
            after (at_venue (venue.cancel_order o.order_id)) _
              (at_venue-Sound (venue.cancel_order o.order_id))
              (λ _.
                after (event venue config now (RiskEvent.reconcile_orphan_exchange o.order_id)) _
                  (event-Sound (RiskEvent.reconcile_orphan_exchange o.order_id))
                  (λ _. cancel_orphans-Sound claimed os))
              s)
      ]

  pub reconcile_on_startup-Sound : Sound (book {V = V}) (reconcile_on_startup venue config now)
  unfolding reconcile_on_startup
  reconcile_on_startup-Sound =
      after (at_venue venue.get_open_orders) _ (at_venue-Sound venue.get_open_orders) (λ exchange s.
        after (reconcile_rows venue config now exchange [] (open_live venue config now s.ledger)) _
          (reconcile_rows-Sound exchange [] (open_live venue config now s.ledger))
          (λ claimed. cancel_orphans-Sound claimed exchange) s)
