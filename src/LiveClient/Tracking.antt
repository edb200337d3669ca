-- ===== src/LiveClient/Tracking.antt =====
-- `LiveExecutor.execute`, through its submission and its recovery.
use i_am_not_a_trader_bot.Prelude.{
  ℕ, String, ◌≡◌, refl, inl, inr, Option, none, some, List, [], ◌∷◌, count_if, Bool-cases, arith,
  ◌==◌, subst, ap, ◌∙◌,
}
use i_am_not_a_trader_bot.Prelude.Result.{Result, ok, err, submission_error}
use i_am_not_a_trader_bot.Prelude.Py.{Exec, pure, lift, continue, ◌>>=◌, ◌>>◌}
use i_am_not_a_trader_bot.Float.{Float, nought, divide}
use i_am_not_a_trader_bot.Signals.{FeatureSnapshot}
use i_am_not_a_trader_bot.Ledger.{
  Mode, RiskEvent, opened, failed, is_open_row, attach_order_id, update_open, update_trade_fill,
  record_risk_event, record_trade,
}
use i_am_not_a_trader_bot.Risk.{Approved}
use i_am_not_a_trader_bot.LiveClient.{
  Venue, LiveState, RestingOrder, in_ledger, at_venue, event, order_for, adopt, recover_match,
  recover, submitted, submit, is_live_mode, live_execute, match_open_order, is_match,
}
use i_am_not_a_trader_bot.LiveClient.Placement.{
  attached, tracked-track_order, IsTracked, IsListed, IsPlaced, Enters,
}

module _ {F V : Type 0} ⦃fl : Float F⦄ (venue : Venue F V) (clock : F) (token_id : String)
    (a : Approved F) (snap : FeatureSnapshot F) where
  adopt-IsTracked :
      (k : ℕ) (order_id : String) (s : LiveState F V)
      → (adopt venue k order_id token_id a snap s).0 ≡ ok tt
      → IsTracked a token_id order_id k (adopt venue k order_id token_id a snap s).1
  unfolding attach_order_id update_open
  adopt-IsTracked k order_id s h =
      elim (Bool-cases (count_if (is_open_row k) s.ledger.trades == 1)) [
        | inr missing ↦ absurd (ground arith)
        | inl one ↦ rw one (record {
          order = order_for venue k order_id token_id a snap;
          is_tracked = tracked-track_order k (order_for venue k order_id token_id a snap) s.orders;
          has_row = attached k order_id 0 s.ledger.trades (ground arith);
          same_order = refl;
          same_token = refl;
          same_price = refl;
          same_stake = refl;
          same_bucket = refl;
        })
      ]

  adopted-IsTracked :
      (k j : ℕ) (order_id : String) (r : Result (Unit {0})) (s : LiveState F V)
      → (r ≡ ok tt → IsTracked a token_id order_id k s)
      → (continue r (λ _. pure k) s).0 ≡ ok j
      → IsTracked a token_id order_id j (continue r (λ _. pure k) s).1
  adopted-IsTracked k j order_id (err e) s tracks h = absurd (ground arith)
  adopted-IsTracked k j order_id (ok tt) s tracks h =
      let same : k ≡ j = ground arith in
      subst (λ i. IsTracked a token_id order_id i s) same (tracks refl)

  recovered-IsTracked :
      (k j : ℕ) (order_id : String) (r : Result (Unit {0})) (s : LiveState F V)
      → (r ≡ ok tt → IsTracked a token_id order_id k s)
      → let rest = (do
        event venue clock (RiskEvent.ambiguous_submission_recovered k order_id)
        pure k) in
        (continue r (λ _. rest) s).0 ≡ ok j
        → IsTracked a token_id order_id j (continue r (λ _. rest) s).1
  unfolding record_risk_event
  recovered-IsTracked k j order_id (err e) s tracks h = absurd (ground arith)
  recovered-IsTracked k j order_id (ok tt) s tracks h =
      let same : k ≡ j = ground arith in
      let t = subst (λ i. IsTracked a token_id order_id i s) same (tracks refl) in
      record {
        order = t.order;
        is_tracked = t.is_tracked;
        has_row = t.has_row;
        same_order = t.same_order;
        same_token = t.same_token;
        same_price = t.same_price;
        same_stake = t.same_stake;
        same_bucket = t.same_bucket;
      }

  raises :
      (j : ℕ) (r : Result (Unit {0})) (s : LiveState F V)
      → (continue r (λ _. lift {A = ℕ} (err submission_error)) s).0 ≡ ok j
      → ⊥
  raises j (ok tt) s h = ground arith
  raises j (err e) s h = ground arith

  match_open_order-IsListed :
      (o : RestingOrder F) (os : List (RestingOrder F))
      → match_open_order venue os token_id a.limit_price [] ≡ some o
      → IsListed token_id a.limit_price o.order_id os
  unfolding match_open_order
  match_open_order-IsListed o [] h = absurd (ground arith)
  match_open_order-IsListed o (p ∷ os) h =
      elim (Bool-cases (is_match venue token_id a.limit_price [] p)) [
        | inr other ↦ inr (match_open_order-IsListed o os (ground arith))
        | inl same ↦
            let found : p ≡ o = ground arith in
            inl (ap (λ (q : RestingOrder F). q.order_id) found, ground arith, ground arith)
      ]

  -- An order of this id that is tracked for the trade, if the id has a property.
  abbrev Tracks : (String → Type 0) → ℕ → LiveState F V → Type 0
  Tracks P j s = (order_id : String) × P order_id × IsTracked a token_id order_id j s

  recover_match-Tracks :
      (k j : ℕ) (os : List (RestingOrder F)) (found : Option (RestingOrder F)) (s : LiveState F V)
      → match_open_order venue os token_id a.limit_price [] ≡ found
      → (recover_match venue clock k token_id a snap found s).0 ≡ ok j
      → Tracks
          (λ id. IsListed token_id a.limit_price id os)
          j
          (recover_match venue clock k token_id a snap found s).1
  recover_match-Tracks k j os none s e h = absurd (
      raises j (in_ledger (update_trade_fill k none nought failed) s).0
        (in_ledger (update_trade_fill k none nought failed) s).1 h)
  recover_match-Tracks k j os (some o) s e h = (
    o.order_id,
    match_open_order-IsListed o os e,
    recovered-IsTracked k j o.order_id (adopt venue k o.order_id token_id a snap s).0
        (adopt venue k o.order_id token_id a snap s).1 (adopt-IsTracked k o.order_id s) h,
  )

  submitted-Tracks :
      (shares : F) (k j : ℕ) (r : Result String) (v : V) (s : LiveState F V)
      → venue.post_order token_id a.limit_price shares v ≡ (r, s.venue)
      → (submitted venue clock k token_id a snap (r, s)).0 ≡ ok j
      → Tracks
          (IsPlaced venue token_id a.limit_price shares v)
          j
          (submitted venue clock k token_id a snap (r, s)).1
  unfolding recover
  submitted-Tracks shares k j (ok order_id) v s posted h = (
    order_id,
    inl (ap (λ (x : Result String × V). x.0) posted),
    adopted-IsTracked k j order_id (adopt venue k order_id token_id a snap s).0
        (adopt venue k order_id token_id a snap s).1 (adopt-IsTracked k order_id s) h,
  )
  submitted-Tracks shares k j (err e) v s posted h =
      by_orders (venue.get_open_orders s.venue).0 refl h
    where
      by_orders :
          (r : Result (List (RestingOrder F)))
          → (venue.get_open_orders s.venue).0 ≡ r
          → let after =
              continue r
                (λ os.
                  recover_match venue clock k token_id a snap
                    (match_open_order venue os token_id a.limit_price []))
                (at_venue venue.get_open_orders s).1 in
            after.0 ≡ ok j → Tracks (IsPlaced venue token_id a.limit_price shares v) j after.1
      by_orders (err raised) said g = absurd (ground arith)
      by_orders (ok os) said g =
          let t =
            recover_match-Tracks k j os (match_open_order venue os token_id a.limit_price [])
              (at_venue venue.get_open_orders s).1 refl g in
          (
            t.0,
            inr (record {
              raised = e;
              listed = os;
              refused = ap (λ (x : Result String × V). x.0) posted;
              answered =
                  ap (λ (x : Result String × V). (venue.get_open_orders x.1).0) posted ∙ said;
              is_listed = t.1;
            }),
            t.2,
          )

module _ {F V : Type 0} ⦃fl : Float F⦄ (venue : Venue F V) where
  -- An entry from which `execute` returns is an open row of the ledger that carries the id of the
  -- order at the venue, and this order is tracked under the trade's id with the approval's price,
  -- stake and bucket. The order is for the token that the venue resolved and for stake / limit
  -- shares; its id is the one that the venue returned for the post, or, where the post raised, that
  -- of an order for this token at this price on the venue's list of open orders after it.
  pub live_execute-IsTracked :
      (clock : F) (a : Approved F) (snap : FeatureSnapshot F) (s : LiveState F V) (j : ℕ)
      → (live_execute venue clock a snap s).0 ≡ ok j
      → Enters venue a j s (live_execute venue clock a snap s).1
  unfolding live_execute
  live_execute-IsTracked clock a snap s j h = elim (Bool-cases (is_live_mode venue a)) [
    | inr in_shadow ↦ absurd (ground arith)
    | inl in_live ↦
        rw in_live
          (resolved (venue.resolve_token_id a.market_slug a.side s.venue).0 refl (rw in_live at h))
  ]
    where
      row : Exec (LiveState F V) ℕ
      row = in_ledger (
          record_trade clock a.bucket_ts a.variant_id a.market_slug a.side Mode.live a.limit_price
            a.stake_usd opened none nought)

      v1 : V
      v1 = (venue.resolve_token_id a.market_slug a.side s.venue).1

      Good : Result ℕ × LiveState F V → Type 0
      Good after = after.0 ≡ ok j → Enters venue a j s after.1

      inserted :
          (token_id : String) (shares : F) (r : Result ℕ) (u : LiveState F V)
          → (venue.resolve_token_id a.market_slug a.side s.venue).0 ≡ ok token_id
          → divide a.stake_usd a.limit_price ≡ ok shares
          → u.venue ≡ v1
          → Good (continue r (λ k. submit venue clock k token_id shares a snap) u)
      inserted token_id shares (err e) u named parts same g = absurd (ground arith)
      inserted token_id shares (ok k) u named parts same g =
          let t =
            submitted-Tracks venue clock token_id a snap shares k j
              (venue.post_order token_id a.limit_price shares u.venue).0 u.venue
              (at_venue (venue.post_order token_id a.limit_price shares) u).1 refl g in
          record {
            token_id = token_id;
            shares = shares;
            order_id = t.0;
            is_token = named;
            is_size = parts;
            is_placed =
                subst (λ (v : V). IsPlaced venue token_id a.limit_price shares v t.0) same t.1;
            is_tracked = t.2;
          }

      divided :
          (token_id : String) (r : Result F)
          → (venue.resolve_token_id a.market_slug a.side s.venue).0 ≡ ok token_id
          → divide a.stake_usd a.limit_price ≡ r
          → Good (
              continue r
                (λ shares. row >>= λ k. submit venue clock k token_id shares a snap)
                (record s { venue = v1 }))
      divided token_id (err e) named parts g = absurd (ground arith)
      divided token_id (ok shares) named parts g =
          inserted token_id shares (row (record s { venue = v1 })).0
            (row (record s { venue = v1 })).1 named parts refl g

      resolved :
          (r : Result String)
          → (venue.resolve_token_id a.market_slug a.side s.venue).0 ≡ r
          → Good (
              continue r
                (λ token_id. lift (divide a.stake_usd a.limit_price) >>= λ shares.
                  row >>= λ k. submit venue clock k token_id shares a snap)
                (record s { venue = v1 }))
      resolved (err e) named g = absurd (ground arith)
      resolved (ok token_id) named g =
          divided token_id (divide a.stake_usd a.limit_price) named refl g
