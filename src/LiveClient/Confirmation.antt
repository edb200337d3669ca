-- ===== src/LiveClient/Confirmation.antt =====
-- `_cancel_and_confirm`: what is written for each answer of the venue.
use i_am_not_a_trader_bot.Prelude.{
  ℕ, String, Bool, true, false, ◌≡◌, refl, Option, none, some, List, map, count_if, arith, inl, inr,
  Bool-cases, ◌==◌, subst, ap, ◌∙◌, sym,
}
use i_am_not_a_trader_bot.Prelude.Result.{Result, ok, err}
use i_am_not_a_trader_bot.Prelude.Py.{Exec, pure, continue, ◌>>=◌}
use i_am_not_a_trader_bot.Float.{Float, nought}
use i_am_not_a_trader_bot.Ledger.{
  Trade, TradeStatus, cancelled, filled, is_open_row, update_row, update_trade_fill, update_open,
  record_risk_event,
}
use i_am_not_a_trader_bot.Executor.Fills.{IsFee, taker_fee_cases}
use i_am_not_a_trader_bot.LiveClient.{
  Venue, LiveState, OrderStatus, OrderState, done, gone, resting, in_ledger, at_venue,
  fee_or_formula, or_else, record_confirmed_fill, write_confirmed, cancel_and_confirm,
}

module _ {F : Type 0} where
  -- What the venue reports, else the other.
  abbrev pub IsReported : Option F → F → F → Type 0
  IsReported none fallback x = x ≡ fallback
  IsReported (some reported) fallback x = x ≡ reported

  -- The rows after the open row of the trade got a terminal status.
  abbrev pub closed_with : ℕ → F → F → TradeStatus → List (Trade F) → List (Trade F)
  closed_with k price fee status ts =
      map
        (update_row (is_open_row k)
          (λ t. record t { filled_price = some price; fee_usd = fee; status = status }))
        ts

  -- One open row became terminal, and nothing else of the trades changed.
  abbrev pub Closes : ℕ → F → F → TradeStatus → List (Trade F) → List (Trade F) → Type 0
  Closes k price fee status ts ts' =
      (count_if (is_open_row k) ts ≡ 1) × (ts' ≡ closed_with k price fee status ts)

module _ {F V : Type 0} ⦃fl : Float F⦄ (venue : Venue F V) (k : ℕ) (order_id : String)
    (intended stake_usd fee_rate : F) (fees_enabled : Bool) where
  abbrev pub IsReportedFee : Option F → F → F → Type 0
  IsReportedFee none price fee = IsFee fees_enabled stake_usd fee_rate price fee
  IsReportedFee (some reported) price fee = fee ≡ reported

  -- A fill that the venue reports is written with its price and fee where it reports these.
  pub record WritesFill (status : OrderStatus F) (ts ts' : List (Trade F)) : Type 0 where
    pub price : F
    pub fee : F
    pub is_price : IsReported status.filled_price intended price
    pub is_fee : IsReportedFee status.fee_usd price fee
    pub closes : Closes k price fee filled ts ts'

  -- What is answered and written for each state of the order.
  abbrev pub Writes : OrderStatus F → OrderState → Bool → List (Trade F) → List (Trade F) → Type 0
  Writes status done b ts ts' = (b ≡ true) × WritesFill status ts ts'
  Writes status gone b ts ts' = (b ≡ true) × Closes k intended nought cancelled ts ts'
  Writes status resting b ts ts' = (b ≡ false) × (ts' ≡ ts)

  -- The venue took the cancel, answered the query that follows it, and was asked no more; what is
  -- written follows from this answer.
  pub record Confirms (b : Bool) (s s' : LiveState F V) : Type 0 where
    pub status : OrderStatus F
    pub took : (venue.cancel_order order_id s.venue).0 ≡ ok tt
    pub answered :
        venue.get_order order_id (venue.cancel_order order_id s.venue).1 ≡ (ok status, s'.venue)
    pub writes : Writes status status.state b s.ledger.trades s'.ledger.trades

  filled-Closes :
      (price fee : F) (u : LiveState F V)
      → let after = in_ledger (update_trade_fill k (some price) fee filled) u in
        after.0 ≡ ok tt
        → Closes k price fee filled u.ledger.trades after.1.ledger.trades
          × (after.1.venue ≡ u.venue)
  unfolding update_trade_fill update_open
  filled-Closes price fee u h = elim (Bool-cases (count_if (is_open_row k) u.ledger.trades == 1)) [
    | inl one ↦ ((ground arith, refl), refl)
    | inr other ↦ absurd (ground arith)
  ]

  cancelled-Closes :
      (price fee : F) (u : LiveState F V)
      → let after = in_ledger (update_trade_fill k (some price) fee cancelled) u in
        after.0 ≡ ok tt
        → Closes k price fee cancelled u.ledger.trades after.1.ledger.trades
          × (after.1.venue ≡ u.venue)
  unfolding update_trade_fill update_open
  cancelled-Closes price fee u h =
      elim (Bool-cases (count_if (is_open_row k) u.ledger.trades == 1)) [
        | inl one ↦ ((ground arith, refl), refl)
        | inr other ↦ absurd (ground arith)
      ]

  or_else-IsReported :
      (reported : Option F) → IsReported reported intended (or_else venue reported intended)
  or_else-IsReported none = refl
  or_else-IsReported (some x) = refl

  fee_or_formula-IsReportedFee :
      (reported : Option F) (price fee : F)
      → fee_or_formula venue reported fees_enabled stake_usd fee_rate price ≡ ok fee
      → IsReportedFee reported price fee
  fee_or_formula-IsReportedFee (some x) price fee h = ground arith
  fee_or_formula-IsReportedFee none price fee h =
      elim (taker_fee_cases fees_enabled stake_usd fee_rate price) [
        | inl (x, known, is_fee) ↦
            let same : x ≡ fee = ground arith in
            subst (λ y. IsFee fees_enabled stake_usd fee_rate price y) same is_fee
        | inr (charged, zero, raised) ↦ absurd (ground arith)
      ]

  -- A write and the answer true: the write returned, and the answer adds nothing.
  then_true :
      (b : Bool) (r : Result (Unit {0})) (u : LiveState F V)
      → (continue r (λ _. pure true) u).0 ≡ ok b
      → (r ≡ ok tt) × (b ≡ true) × ((continue r (λ _. pure true) u).1 ≡ u)
  then_true b (ok tt) u h = (refl, ground arith, refl)
  then_true b (err e) u h = absurd (ground arith)

  -- What a step from `u` answers and leaves, for a state of the order.
  abbrev Good : OrderStatus F → OrderState → Bool → LiveState F V → LiveState F V → Type 0
  Good status state b u after =
      Writes status state b u.ledger.trades after.ledger.trades × (after.venue ≡ u.venue)

  done-Good :
      (status : OrderStatus F) (b : Bool) (u : LiveState F V) (r : Result F)
      → let price = or_else venue status.filled_price intended in
        fee_or_formula venue status.fee_usd fees_enabled stake_usd fee_rate price ≡ r
        → let written =
            continue r (λ fee. in_ledger (update_trade_fill k (some price) fee filled)) u in
          (continue written.0 (λ _. pure true) written.1).0 ≡ ok b
          → Good status done b u (continue written.0 (λ _. pure true) written.1).1
  done-Good status b u (err e) priced h = absurd (ground arith)
  done-Good status b u (ok fee) priced h = (
    (
      t.1,
      record {
        price = price;
        fee = fee;
        is_price = or_else-IsReported status.filled_price;
        is_fee = fee_or_formula-IsReportedFee status.fee_usd price fee priced;
        closes = rw t.2 c.0;
      },
    ),
    ap (λ (x : LiveState F V). x.venue) t.2 ∙ c.1,
  )
    where
      price : F
      price = or_else venue status.filled_price intended

      step : Result (Unit {0}) × LiveState F V
      step = in_ledger (update_trade_fill k (some price) fee filled) u

      t : (step.0 ≡ ok tt) × (b ≡ true) × ((continue step.0 (λ _. pure true) step.1).1 ≡ step.1)
      t = then_true b step.0 step.1 h

      c : Closes k price fee filled u.ledger.trades step.1.ledger.trades × (step.1.venue ≡ u.venue)
      c = filled-Closes price fee u t.0

  gone-Good :
      (status : OrderStatus F) (b : Bool) (u : LiveState F V)
      → let step = in_ledger (update_trade_fill k (some intended) nought cancelled) u in
        (continue step.0 (λ _. pure true) step.1).0 ≡ ok b
        → Good status gone b u (continue step.0 (λ _. pure true) step.1).1
  gone-Good status b u h = ((t.1, rw t.2 c.0), ap (λ (x : LiveState F V). x.venue) t.2 ∙ c.1)
    where
      step : Result (Unit {0}) × LiveState F V
      step = in_ledger (update_trade_fill k (some intended) nought cancelled) u

      t : (step.0 ≡ ok tt) × (b ≡ true) × ((continue step.0 (λ _. pure true) step.1).1 ≡ step.1)
      t = then_true b step.0 step.1 h

      c :
          Closes k intended nought cancelled u.ledger.trades step.1.ledger.trades
          × (step.1.venue ≡ u.venue)
      c = cancelled-Closes intended nought u t.0

  write_confirmed-Good :
      (now : F) (status : OrderStatus F) (state : OrderState) (b : Bool) (u : LiveState F V)
      → let after =
          write_confirmed venue k order_id intended stake_usd fee_rate fees_enabled now status state
            u in
        after.0 ≡ ok b → Good status state b u after.1
  unfolding record_confirmed_fill record_risk_event
  write_confirmed-Good now status done b u h =
      done-Good status b u
        (fee_or_formula venue status.fee_usd fees_enabled stake_usd fee_rate
          (or_else venue status.filled_price intended))
        refl h
  write_confirmed-Good now status gone b u h = gone-Good status b u h
  write_confirmed-Good now status resting b u h = ((ground arith, refl), refl)

  -- Where `_cancel_and_confirm` returns, the venue took the cancel and answered a query made after
  -- it. If the answer is a fill, the one open row of the trade is filled at the reported price, else
  -- the intended one, with the reported fee, else the formula's, and the result is true; if the order
  -- is gone, the row is cancelled at the intended price without a fee, and the result is true; if the
  -- order still rests, every trade is as it was, and the result is false. Other rows never change.
  pub cancel_and_confirm-Confirms :
      (now : F) (s : LiveState F V) (b : Bool)
      → let after =
          cancel_and_confirm venue k order_id intended stake_usd fee_rate fees_enabled now s in
        after.0 ≡ ok b → Confirms b s after.1
  unfolding cancel_and_confirm
  cancel_and_confirm-Confirms now s b h = asked (venue.cancel_order order_id s.venue).0 refl h
    where
      confirm : OrderStatus F → Exec (LiveState F V) Bool
      confirm status =
          write_confirmed venue k order_id intended stake_usd fee_rate fees_enabled now status
            status.state

      v1 : V
      v1 = (venue.cancel_order order_id s.venue).1

      answered :
          (r : Result (OrderStatus F)) (v : V)
          → (venue.cancel_order order_id s.venue).0 ≡ ok tt
          → venue.get_order order_id v1 ≡ (r, v)
          → let after = continue r confirm (record s { venue = v }) in
            after.0 ≡ ok b → Confirms b s after.1
      answered (err e) v took said g = absurd (ground arith)
      answered (ok status) v took said g =
          let w = write_confirmed-Good now status status.state b (record s { venue = v }) g in
          record {
            status = status;
            took = took;
            answered = said ∙ ap (λ (x : V). (ok status, x)) (sym w.1);
            writes = w.0;
          }

      asked :
          (r : Result (Unit {0}))
          → (venue.cancel_order order_id s.venue).0 ≡ r
          → let after =
              continue r
                (λ _. at_venue (venue.get_order order_id) >>= confirm)
                (record s { venue = v1 }) in
            after.0 ≡ ok b → Confirms b s after.1
      asked (err e) took g = absurd (ground arith)
      asked (ok tt) took g =
          answered (venue.get_order order_id v1).0 (venue.get_order order_id v1).1 took refl g
