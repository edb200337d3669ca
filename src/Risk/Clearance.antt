-- ===== src/Risk/Clearance.antt =====
-- What holds when `check` approves an entry.
use i_am_not_a_trader_bot.Prelude.{
  Bool-cases, Bool, true, false, ◌≡◌, refl, inl, inr, Option, none, some, leb, arith,
}
use i_am_not_a_trader_bot.Prelude.Result.{Result, ok, err, Result-cases}
use i_am_not_a_trader_bot.Float.{Float, IsOrdered, ◌≺◌, ◌≼◌, nought}
use i_am_not_a_trader_bot.Signals.{Side, FeatureSnapshot}
use i_am_not_a_trader_bot.Config.{Config, Variant, hard_per_trade_max_usd}
use i_am_not_a_trader_bot.Rulesets.{Action, enter, Decision}
use i_am_not_a_trader_bot.Ledger.{
  Mode, Ledger, Calendar, Rejection, has_entry, live_realized_pnl_on_day, live_trade_count_on_day,
}
use i_am_not_a_trader_bot.Risk.Sizing.{Approved, Stake, stake, refusal, approve}
use i_am_not_a_trader_bot.Risk.State.{stop_active, halted, World, approved}
use i_am_not_a_trader_bot.Risk.Manager.{
  check_enter, check_sided, check, market_guards, loss_cap, check_daily_caps, size, check_entry,
  mode_of,
}
use i_am_not_a_trader_bot.Risk.Guards.{
  IsTradable, market_guards-IsTradable, IsClamped, live_stake-IsClamped,
}

module _ {F : Type 0} ⦃fl : Float F⦄ ⦃cal : Calendar F⦄ where
  pub record IsWithinCaps (config : Config F) (now : F) (l : Ledger F) : Type 0 where
    pub realized : F
    pub has_realized : live_realized_pnl_on_day (cal.operator_day now) l ≡ ok realized
    pub above_cap : (realized ≼ fl.neg (loss_cap config)) ≡ false
    pub below_count :
        leb config.risk.max_live_trades_per_day (live_trade_count_on_day (cal.operator_day now) l)
        ≡ false

  check_daily_caps-IsWithinCaps :
      (config : Config F) (now : F) (w : World F)
      → (check_daily_caps config now w).0 ≡ ok none
      → IsWithinCaps config now w.ledger
  unfolding check_daily_caps
  check_daily_caps-IsWithinCaps config now w h =
      elim (Result-cases (live_realized_pnl_on_day (cal.operator_day now) w.ledger)) [
        | inr (e, failed) ↦ absurd (ground arith)
        | inl (realized, known) ↦ record {
          realized = realized;
          has_realized = known;
          above_cap = ground arith;
          below_count = ground arith;
        }
      ]

  -- Passing the caps writes nothing.
  check_daily_caps-same :
      (config : Config F) (now : F) (w : World F)
      → (check_daily_caps config now w).0 ≡ ok none
      → (check_daily_caps config now w).1 ≡ w
  unfolding check_daily_caps
  check_daily_caps-same config now w h =
      elim (Result-cases (live_realized_pnl_on_day (cal.operator_day now) w.ledger)) [
        | inr (e, failed) ↦ absurd (ground arith)
        | inl (realized, known) ↦ ground arith
      ]

  -- How the stake was sized, by mode.
  abbrev pub IsSized : Config F → Variant F → Mode → F → F → Option F → F → Ledger F → Type 0
  IsSized config variant Mode.shadow price amount win_prob now l =
      amount ≡ config.reference_stake_usd
  IsSized config variant Mode.live price amount win_prob now l =
      IsWithinCaps config now l × IsClamped config variant price amount win_prob l

  size-IsSized :
      IsOrdered fl
      → (config : Config F) (variant : Variant F) (mode : Mode) (price amount : F)
        (win_prob : Option F) (now : F) (w : World F)
      → (size config variant mode price win_prob now w).0 ≡ ok (stake amount)
      → IsSized config variant mode price amount win_prob now w.ledger
  unfolding size
  size-IsSized laws config variant Mode.shadow price amount win_prob now w h = ground arith
  size-IsSized laws config variant Mode.live price amount win_prob now w h =
      caps ((check_daily_caps config now w).0) refl
    where
      caps :
          (r : Result (Option Rejection))
          → (check_daily_caps config now w).0 ≡ r
          → IsSized config variant Mode.live price amount win_prob now w.ledger
      caps (err e) er = absurd (ground arith)
      caps (ok (some reason)) er = absurd (ground arith)
      caps (ok none) er = (
        check_daily_caps-IsWithinCaps config now w er,
        live_stake-IsClamped laws config variant price amount win_prob w.ledger
            (ground (arith, check_daily_caps-same config now w er)),
      )

  -- All that an approval rests on: what was asked, the state `w` in which it was asked, and `a`.
  pub record IsCleared (config : Config F) (stop : Bool) (variant : Variant F)
      (decision : Decision F) (snap : FeatureSnapshot F) (now : F) (win_prob : Option F)
      (w : World F) (a : Approved F) : Type 0 where
    pub entering : decision.action ≡ enter
    pub not_stopped : stop ≡ false
    pub not_failing : leb config.risk.consecutive_failure_halt w.risk.consecutive_failures ≡ false
    pub first : has_entry snap.bucket_ts variant.id (mode_of variant.status) w.ledger ≡ false
    pub has_side : decision.side ≡ some a.side
    pub has_price : decision.limit_price ≡ some a.limit_price
    pub for_variant : a.variant_id ≡ variant.id
    pub for_bucket : a.bucket_ts ≡ snap.bucket_ts
    pub for_market : a.market_slug ≡ snap.market_slug
    pub in_mode : a.mode ≡ mode_of variant.status
    pub tradable : IsTradable config.risk a.side snap
    pub positive : (nought ≺ a.stake_usd) ≡ true
    pub within_hard_max : (hard_per_trade_max_usd ≺ a.stake_usd) ≡ false
    pub sized :
        IsSized config variant
          (mode_of variant.status)
          a.limit_price
          a.stake_usd
          win_prob
          now
          w.ledger

  -- What an approval says of an entry that got as far as its side and price.
  record IsIssued (config : Config F) (variant : Variant F) (side : Side) (price : F)
      (snap : FeatureSnapshot F) (now : F) (win_prob : Option F) (w : World F) (a : Approved F)
      : Type 0 where
    for_side : a.side ≡ side
    for_price : a.limit_price ≡ price
    for_variant : a.variant_id ≡ variant.id
    for_bucket : a.bucket_ts ≡ snap.bucket_ts
    for_market : a.market_slug ≡ snap.market_slug
    in_mode : a.mode ≡ mode_of variant.status
    tradable : IsTradable config.risk side snap
    positive : (nought ≺ a.stake_usd) ≡ true
    within_hard_max : (hard_per_trade_max_usd ≺ a.stake_usd) ≡ false
    sized : IsSized config variant (mode_of variant.status) price a.stake_usd win_prob now w.ledger

  check_entry-IsIssued :
      IsOrdered fl
      → (config : Config F) (variant : Variant F) (side : Side) (price : F)
        (snap : FeatureSnapshot F) (now : F) (win_prob : Option F) (w : World F) (a : Approved F)
      → (check_entry config variant side price snap now win_prob w).0 ≡ ok (approved a)
      → IsIssued config variant side price snap now win_prob w a
  unfolding check_entry approve
  check_entry-IsIssued laws config variant side price snap now win_prob w a h =
      guards (market_guards config.risk side snap) refl
    where
      sizes :
          (r : Result (Stake F))
          → (size config variant (mode_of variant.status) price win_prob now w).0 ≡ r
          → market_guards config.risk side snap ≡ none
          → IsIssued config variant side price snap now win_prob w a
      sizes (err e) er eg = absurd (ground arith)
      sizes (ok (refusal reason)) er eg = absurd (ground arith)
      sizes (ok (stake amount)) er eg =
          let same : amount ≡ a.stake_usd = ground arith in
          record {
            for_side = ground arith;
            for_price = ground arith;
            for_variant = ground arith;
            for_bucket = ground arith;
            for_market = ground arith;
            in_mode = ground arith;
            tradable = market_guards-IsTradable config.risk side snap eg;
            positive = ground arith;
            within_hard_max = ground arith;
            sized = rw (← same) (
                size-IsSized laws config variant (mode_of variant.status) price amount win_prob now
                  w er);
          }

      guards :
          (g : Option Rejection)
          → market_guards config.risk side snap ≡ g
          → IsIssued config variant side price snap now win_prob w a
      guards (some reason) eg = absurd (ground arith)
      guards none eg =
          sizes ((size config variant (mode_of variant.status) price win_prob now w).0) refl eg

  -- The state in which an unhalted `check` reads the ledger: only the STOP flag has changed.
  abbrev rearmed : World F → World F
  rearmed w = record w { risk = record (w.risk) { stop_event_recorded = false } }

  check_sided-IsCleared :
      IsOrdered fl
      → (config : Config F) (variant : Variant F) (decision : Decision F) (snap : FeatureSnapshot F)
        (now : F) (win_prob : Option F) (w : World F) (a : Approved F)
      → decision.action ≡ enter
      → leb config.risk.consecutive_failure_halt w.risk.consecutive_failures ≡ false
      → has_entry snap.bucket_ts variant.id (mode_of variant.status) w.ledger ≡ false
      → (side : Option Side) (price : Option F) → decision.side ≡ side
      → decision.limit_price ≡ price
      → (check_sided config variant side price snap now win_prob (rearmed w)).0 ≡ ok (approved a)
      → IsCleared config false variant decision snap now win_prob w a
  check_sided-IsCleared laws config variant decision snap now win_prob w a entering failing first
        none price es ep h =
      absurd (ground arith)
  check_sided-IsCleared laws config variant decision snap now win_prob w a entering failing first
        (some side) none es ep h =
      absurd (ground arith)
  check_sided-IsCleared laws config variant decision snap now win_prob w a entering failing first
        (some side) (some price) es ep h =
      let i =
        check_entry-IsIssued laws config variant side price snap now win_prob (rearmed w) a h in
      record {
        entering = entering;
        not_stopped = refl;
        not_failing = failing;
        first = first;
        has_side = rw i.for_side es;
        has_price = rw i.for_price ep;
        for_variant = i.for_variant;
        for_bucket = i.for_bucket;
        for_market = i.for_market;
        in_mode = i.in_mode;
        tradable = rw i.for_side i.tradable;
        positive = i.positive;
        within_hard_max = i.within_hard_max;
        sized = rw i.for_price i.sized;
      }

  -- An approval has passed every guard: the decision enters, there is no STOP file and no failure
  -- halt, the bucket has no entry of this variant and mode, the market is fresh, narrow, deep and
  -- far enough from its close; the stake is positive, at most the hard maximum, and sized by its
  -- mode: the reference stake in shadow mode; in live mode within the daily caps, and with none of
  -- the quarter-Kelly stake, the per-trade maximum, 2% of the bankroll and the remaining
  -- allocation below it.
  pub check-IsCleared :
      IsOrdered fl
      → (config : Config F) (stop : Bool) (variant : Variant F) (decision : Decision F)
        (snap : FeatureSnapshot F) (now : F) (win_prob : Option F) (w : World F) (a : Approved F)
      → (check config stop variant decision snap now win_prob w).0 ≡ ok (approved a)
      → IsCleared config stop variant decision snap now win_prob w a
  unfolding check check_enter halted stop_active
  check-IsCleared laws config stop variant decision snap now win_prob w a h =
      acts decision.action stop refl h
    where
      runs :
          (decision.action ≡ enter)
          → (stop : Bool)
          → (check_enter config stop variant decision snap now win_prob w).0 ≡ ok (approved a)
          → IsCleared config stop variant decision snap now win_prob w a
      runs entering true k = absurd (ground arith)
      runs entering false k =
          elim (Bool-cases (leb config.risk.consecutive_failure_halt w.risk.consecutive_failures)) [
            | inl failing ↦ absurd (ground arith)
            | inr fine ↦
                elim (Bool-cases
                  (has_entry snap.bucket_ts variant.id (mode_of variant.status) w.ledger)) [
                    | inl again ↦ absurd (ground arith)
                    | inr first ↦
                        check_sided-IsCleared laws config variant decision snap now win_prob w a
                          entering fine first decision.side decision.limit_price refl refl
                          (ground arith)
                  ]
          ]

      acts :
          (action : Action)
          → (stop : Bool) → decision.action ≡ action
          → (check config stop variant decision snap now win_prob w).0 ≡ ok (approved a)
          → IsCleared config stop variant decision snap now win_prob w a
      acts Action.skip stop ea k = absurd (ground arith)
      acts Action.enter stop ea k = runs ea stop (ground arith)
