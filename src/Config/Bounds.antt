-- ===== src/Config/Bounds.antt =====
-- What a configuration that passes its checks promises to the engine.
use i_am_not_a_trader_bot.Prelude.{
  true, false, ◌≡◌, refl, ◌≤◌, ◌<◌, List, [], ◌∷◌, All, any, arith, Bool, not, ltb, str_eq,
}
use i_am_not_a_trader_bot.Prelude.Result.{Result, ok, err, ◌>>◌}
use i_am_not_a_trader_bot.Float.{Float, ◌≺◌, ◌≼◌, nought}
use i_am_not_a_trader_bot.Config.{Config, RiskConfig, GateConfig, Variant, hard_per_trade_max_usd}
use i_am_not_a_trader_bot.Config.Validation.{
  ensure, valid_rulesets, distinct, ids_of, is_up_to, within, check_risk, check_gate, check_kill,
  check_variant, check_variants, check_config, hard_daily_loss_cap_pct,
  hard_max_live_trades_per_day,
}

-- Where a test and the rest of the checks pass, both do.
both_pass :
    (b : Bool) (rest : Result (Unit {0})) → (ensure b >> rest) ≡ ok tt → (b ≡ true) × (rest ≡ ok tt)
both_pass true rest h = (refl, h)
both_pass false rest h = absurd (ground arith)

last_pass : (b : Bool) → ensure b ≡ ok tt → b ≡ true
last_pass true h = refl
last_pass false h = absurd (ground arith)

-- Where two groups of checks pass, each does.
groups_pass :
    (first second : Result (Unit {0}))
    → (first >> second) ≡ ok tt
    → (first ≡ ok tt) × (second ≡ ok tt)
groups_pass (ok tt) second h = (refl, h)
groups_pass (err e) second h = absurd (ground arith)

module _ {F : Type 0} ⦃fl : Float F⦄ where
  pub record IsBounded (c : Config F) : Type 0 where
    pub stake_positive : (nought ≺ c.reference_stake_usd) ≡ true
    pub stake_within : (c.reference_stake_usd ≼ hard_per_trade_max_usd) ≡ true
    pub trade_within : (c.risk.per_trade_max_usd ≼ hard_per_trade_max_usd) ≡ true
    pub loss_within : (c.risk.daily_loss_cap_pct ≼ hard_daily_loss_cap_pct) ≡ true
    pub few_trades : c.risk.max_live_trades_per_day ≤ hard_max_live_trades_per_day
    pub halts_on_failures :
        (1 < c.risk.consecutive_failure_halt) × (c.risk.consecutive_failure_halt ≤ 10)
    pub late_gate : 100 ≤ c.gate.min_trades
    pub has_interval : 0 < c.gate.checkpoint_interval
    pub own_ids : distinct (ids_of c.variants) ≡ true
    pub no_debt : All (λ (v : Variant F). (v.allocation_usd ≺ nought) ≡ false) c.variants

  -- The ranges of the risk section that a later section is about.
  record IsBoundedRisk (r : RiskConfig F) : Type 0 where
    trade : is_up_to hard_per_trade_max_usd r.per_trade_max_usd ≡ true
    loss : is_up_to hard_daily_loss_cap_pct r.daily_loss_cap_pct ≡ true
    trades : within 0 hard_max_live_trades_per_day r.max_live_trades_per_day ≡ true
    failures : within 1 10 r.consecutive_failure_halt ≡ true

  check_risk-IsBoundedRisk : (r : RiskConfig F) → check_risk r ≡ ok tt → IsBoundedRisk r
  unfolding check_risk
  check_risk-IsBoundedRisk r h =
      let a = both_pass (is_up_to hard_per_trade_max_usd r.per_trade_max_usd) _ h in
      let b = both_pass (is_up_to hard_daily_loss_cap_pct r.daily_loss_cap_pct) _ a.1 in
      let c = both_pass (within 0 hard_max_live_trades_per_day r.max_live_trades_per_day) _ b.1 in
      let d = both_pass (is_up_to (fl.decimal 5 1) r.max_spread) _ c.1 in
      let e = both_pass (is_up_to (fl.decimal 60 0) r.max_quote_staleness_sec) _ d.1 in
      let f = both_pass (within 5 120 r.exit_before_sec) _ e.1 in
      record {
        trade = a.0;
        loss = b.0;
        trades = c.0;
        failures = last_pass (within 1 10 r.consecutive_failure_halt) f.1;
      }

  check_gate-starts :
      (g : GateConfig F) → check_gate g ≡ ok tt → (100 ≤ g.min_trades) × (0 < g.checkpoint_interval)
  unfolding check_gate
  check_gate-starts g h =
      let a = both_pass (not (ltb g.min_trades 100)) _ h in
      let b = both_pass (not (ltb g.checkpoint_interval 1)) _ a.1 in
      (ground (arith, a.0), ground (arith, b.0))

  check_variants-no_debt :
      (vs : List (Variant F))
      → check_variants vs ≡ ok tt
      → All (λ (v : Variant F). (v.allocation_usd ≺ nought) ≡ false) vs
  unfolding check_variants check_variant
  check_variants-no_debt [] h = tt
  check_variants-no_debt (v ∷ vs) h =
      let a = groups_pass (check_variant v) (check_variants vs) h in
      let b = both_pass (any (str_eq v.ruleset_name) valid_rulesets) _ a.0 in
      let c = both_pass (not (v.allocation_usd ≺ nought)) _ b.1 in
      (ground (arith, c.0), check_variants-no_debt vs a.1)

  -- A configuration whose checks pass is within the hard ceilings, which a configuration cannot
  -- raise: the stakes, the daily loss and the daily trades; the engine halts on a streak of two to
  -- ten failures, the gate opens at a hundred trades or more and its checkpoints advance, no two
  -- variants share an id, and no allocation is negative.
  pub check_config-IsBounded : (c : Config F) → check_config c ≡ ok tt → IsBounded c
  unfolding check_config
  check_config-IsBounded c h =
      let vs = groups_pass (check_variants c.variants) _ h in
      let ids = both_pass (distinct (ids_of c.variants)) _ vs.1 in
      let bankroll = both_pass (not (c.bankroll_usd ≼ nought)) _ ids.1 in
      let stake = both_pass (is_up_to hard_per_trade_max_usd c.reference_stake_usd) _ bankroll.1 in
      let risk = groups_pass (check_risk c.risk) _ stake.1 in
      let gate = groups_pass (check_gate c.gate) (check_kill c.kill) risk.1 in
      let r = check_risk-IsBoundedRisk c.risk risk.0 in
      let g = check_gate-starts c.gate gate.0 in
      record {
        stake_positive = ground (arith, stake.0);
        stake_within = ground (arith, stake.0);
        trade_within = ground (arith, r.trade);
        loss_within = ground (arith, r.loss);
        few_trades = ground (arith, r.trades);
        halts_on_failures = (ground (arith, r.failures), ground (arith, r.failures));
        late_gate = g.0;
        has_interval = g.1;
        own_ids = ids.0;
        no_debt = check_variants-no_debt c.variants vs.0;
      }
