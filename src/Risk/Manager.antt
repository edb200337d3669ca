-- ===== src/Risk/Manager.antt =====
-- class RiskManager: the guards and the choke point `check`.
use i_am_not_a_trader_bot.Prelude.{
  ℕ, String, Bool, true, false, Option, none, some, str_eq, leb, if◌then◌else◌,
}
use i_am_not_a_trader_bot.Prelude.Result.{ok, assertion_error}
use i_am_not_a_trader_bot.Prelude.Py.{Exec, pure, raise, lift, gets, gets_result, ◌>>=◌, ◌>>◌}
use i_am_not_a_trader_bot.Float.{Float, ◌≺◌, ◌≼◌, ◌⊕◌, ◌⊗◌, of_ℕ}
use i_am_not_a_trader_bot.Signals.{Side, FeatureSnapshot, spread, ask_depth}
use i_am_not_a_trader_bot.Config.{Config, RiskConfig, Variant, Status}
use i_am_not_a_trader_bot.Rulesets.{Action, enter, skip, Decision}
use i_am_not_a_trader_bot.Ledger.{
  Mode, RiskEvent, Rejection, Calendar, has_entry, live_realized_pnl_on_day,
  live_trade_count_on_day,
}
use i_am_not_a_trader_bot.Risk.Sizing.{Stake, stake, refusal, approve, live_stake}
use i_am_not_a_trader_bot.Risk.State.{
  World, Verdict, approved, rejected, record_event, set_risk, halted,
}

abbrev pub mode_of : Status → Mode
mode_of Status.live = Mode.live
mode_of Status.shadow = Mode.shadow
mode_of Status.pending_promotion = Mode.shadow
mode_of Status.retired = Mode.shadow

abbrev pub same_day : Option String → String → Bool
same_day none day = false
same_day (some d) day = str_eq d day

abbrev pub exit_margin_sec : ℕ
exit_margin_sec = 5

module _ {F : Type 0} ⦃fl : Float F⦄ where
  -- `spread is None or round(spread, 9) > max_spread`
  abbrev pub too_wide : F → Option F → Bool
  too_wide max_spread none = true
  too_wide max_spread (some s) = max_spread ≺ fl.round_9 s

  -- The guards on the market and the time, in the order of `check`.
  unfoldable pub market_guards : RiskConfig F → Side → FeatureSnapshot F → Option Rejection
  market_guards risk side snap =
      if snap.quote_stale
      then some Rejection.stale_quote
      else if too_wide risk.max_spread (spread side snap)
      then some Rejection.spread_too_wide
      else if ask_depth side snap ≺ risk.min_top_depth_usd
      then some Rejection.book_too_thin
      else if snap.seconds_to_close ≺ (of_ℕ risk.exit_before_sec ⊕ of_ℕ exit_margin_sec)
      then some Rejection.too_close_to_close
      else none

  module _ ⦃cal : Calendar F⦄ where
    abbrev pub loss_cap : Config F → F
    loss_cap config = fl.div config.risk.daily_loss_cap_pct (of_ℕ 100) ⊗ config.bankroll_usd

    abbrev pub loss_event : F → String → F → F → Exec (World F) (Unit {0})
    loss_event now day realized cap w =
        if same_day w.risk.loss_halt_day day
        then (ok tt, w)
        else (do
          set_risk (λ r. record r { loss_halt_day = some day })
          record_event now (RiskEvent.daily_loss_halt day realized cap))
            w

    unfoldable pub check_daily_caps : Config F → F → Exec (World F) (Option Rejection)
    check_daily_caps config now = do
      let day = cal.operator_day now
      let cap = loss_cap config
      realized ← gets_result (λ w. live_realized_pnl_on_day day w.ledger)
      count ← gets (λ w. live_trade_count_on_day day w.ledger)
      (if realized ≼ fl.neg cap
          then (do loss_event now day realized cap; pure (some Rejection.daily_loss_cap))
          else pure (
              if leb config.risk.max_live_trades_per_day count
              then some Rejection.daily_trade_cap
              else none))

    -- The stake of an entry: the reference stake in shadow mode, `_live_stake` within the daily
    -- caps in live mode.
    unfoldable pub size : Config F → Variant F → Mode → F → Option F → F → Exec (World F) (Stake F)
    size config variant Mode.shadow price win_prob now = pure (stake config.reference_stake_usd)
    size config variant Mode.live price win_prob now = do
      capped ← check_daily_caps config now
      elim capped [
        | some reason ↦ pure (refusal reason)
        | none ↦ gets_result (λ w. live_stake config variant price win_prob w.ledger)
      ]

    abbrev pub issue :
        Variant F → FeatureSnapshot F → Side → F → Stake F → Exec (World F) (Verdict F)
    issue variant snap side price (refusal reason) =
        pure (
          rejected
            (record { variant_id = variant.id; bucket_ts = snap.bucket_ts; reason = reason }))
    issue variant snap side price (stake amount) = do
      a ← lift (
          approve (record {
            variant_id = variant.id;
            bucket_ts = snap.bucket_ts;
            market_slug = snap.market_slug;
            side = side;
            limit_price = price;
            stake_usd = amount;
            mode = mode_of variant.status;
          }))
      pure (approved a)

    abbrev pub check_guarded :
        Config F
        → Variant F
        → Side
        → F
        → FeatureSnapshot F
        → F
        → Option F
        → Option Rejection
        → Exec (World F) (Verdict F)
    check_guarded config variant side price snap now win_prob (some reason) =
        issue variant snap side price (refusal reason)
    check_guarded config variant side price snap now win_prob none = do
      amount ← size config variant (mode_of variant.status) price win_prob now
      issue variant snap side price amount

    -- `check` from the market guards on, for an entry on `side` at `price`.
    unfoldable pub check_entry :
        Config F
        → Variant F
        → Side
        → F
        → FeatureSnapshot F
        → F
        → Option F
        → Exec (World F) (Verdict F)
    check_entry config variant side price snap now win_prob =
        check_guarded config variant side price snap now win_prob
          (market_guards config.risk side snap)

    -- The assertion that an entry carries a side and a price.
    abbrev pub check_sided :
        Config F
        → Variant F
        → Option Side
        → Option F
        → FeatureSnapshot F
        → F
        → Option F
        → Exec (World F) (Verdict F)
    check_sided config variant none _ snap now win_prob = raise assertion_error
    check_sided config variant (some side) none snap now win_prob = raise assertion_error
    check_sided config variant (some side) (some price) snap now win_prob =
        check_entry config variant side price snap now win_prob

    abbrev pub reject : Variant F → FeatureSnapshot F → Rejection → Verdict F
    reject variant snap reason =
        rejected (record { variant_id = variant.id; bucket_ts = snap.bucket_ts; reason = reason })

    -- `check` after the halts, when it knows whether the bucket has an entry already.
    abbrev pub check_first :
        Config F
        → Variant F
        → Decision F
        → FeatureSnapshot F
        → F
        → Option F
        → Bool
        → Exec (World F) (Verdict F)
    check_first config variant decision snap now win_prob true =
        pure (reject variant snap Rejection.already_entered_bucket)
    check_first config variant decision snap now win_prob false =
        check_sided config variant decision.side decision.limit_price snap now win_prob

    abbrev pub check_unhalted :
        Config F
        → Variant F
        → Decision F
        → FeatureSnapshot F
        → F
        → Option F
        → Option Rejection
        → Exec (World F) (Verdict F)
    check_unhalted config variant decision snap now win_prob (some reason) =
        pure (reject variant snap reason)
    check_unhalted config variant decision snap now win_prob none = do
      entered ← gets (λ w. has_entry snap.bucket_ts variant.id (mode_of variant.status) w.ledger)
      check_first config variant decision snap now win_prob entered

    -- `check` once the decision is an entry.
    unfoldable pub check_enter :
        Config F
        → Bool
        → Variant F
        → Decision F
        → FeatureSnapshot F
        → F
        → Option F
        → Exec (World F) (Verdict F)
    check_enter config stop variant decision snap now win_prob = do
      halt ← halted config stop now
      check_unhalted config variant decision snap now win_prob halt

    abbrev pub check_act :
        Config F
        → Bool
        → Variant F
        → Decision F
        → FeatureSnapshot F
        → F
        → Option F
        → Action
        → Exec (World F) (Verdict F)
    check_act config stop variant decision snap now win_prob skip =
        pure (reject variant snap Rejection.not_an_entry)
    check_act config stop variant decision snap now win_prob enter =
        check_enter config stop variant decision snap now win_prob

    unfoldable pub check :
        Config F
        → Bool
        → Variant F
        → Decision F
        → FeatureSnapshot F
        → F
        → Option F
        → Exec (World F) (Verdict F)
    check config stop variant decision snap now win_prob =
        check_act config stop variant decision snap now win_prob decision.action
