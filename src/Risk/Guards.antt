-- ===== src/Risk/Guards.antt =====
-- The guards on the market, and the clamps of a live stake.
use i_am_not_a_trader_bot.Prelude.{
  true, false, ◌&&◌, ◌≡◌, refl, inl, inr, Option, none, some, Option-cases, Bool-cases, arith,
}
use i_am_not_a_trader_bot.Prelude.Result.{ok, Result-cases}
use i_am_not_a_trader_bot.Float.{
  Float, IsOrdered, ◌≺◌, ◌⊕◌, ◌⊖◌, ◌⊗◌, nought, of_ℕ, divide, min, min_le, not_lt-min,
}
use i_am_not_a_trader_bot.Signals.{Side, FeatureSnapshot, spread, ask_depth}
use i_am_not_a_trader_bot.Config.{Config, RiskConfig, Variant}
use i_am_not_a_trader_bot.Ledger.{Ledger}
use i_am_not_a_trader_bot.Risk.Sizing.{stake, remaining_allocation, kelly, clamped, live_stake}
use i_am_not_a_trader_bot.Risk.Manager.{market_guards, exit_margin_sec}

module _ {F : Type 0} ⦃fl : Float F⦄ where
  -- The guards on the market that an entry has passed.
  pub record IsTradable (risk : RiskConfig F) (side : Side) (snap : FeatureSnapshot F)
      : Type 0 where
    pub fresh : snap.quote_stale ≡ false
    pub gap : F
    pub has_gap : spread side snap ≡ some gap
    pub narrow : (risk.max_spread ≺ fl.round_9 gap) ≡ false
    pub deep : (ask_depth side snap ≺ risk.min_top_depth_usd) ≡ false
    pub in_time :
        (snap.seconds_to_close ≺ (of_ℕ risk.exit_before_sec ⊕ of_ℕ exit_margin_sec)) ≡ false

  pub market_guards-IsTradable :
      (risk : RiskConfig F) (side : Side) (snap : FeatureSnapshot F)
      → market_guards risk side snap ≡ none
      → IsTradable risk side snap
  unfolding market_guards
  market_guards-IsTradable risk side snap h = elim (Option-cases (spread side snap)) [
    | inl unknown ↦ absurd (ground arith)
    | inr (gap, known) ↦ record {
      fresh = ground arith;
      gap = gap;
      has_gap = known;
      narrow = ground arith;
      deep = ground arith;
      in_time = ground arith;
    }
  ]

  -- A live stake: no cap of the rulebook is below it.
  pub record IsClamped (config : Config F) (variant : Variant F) (price amount : F)
      (win_prob : Option F) (l : Ledger F) : Type 0 where
    pub estimate : F
    pub has_estimate : win_prob ≡ some estimate
    pub priced : (nought ≺ price) ≡ true
    pub below_one : (price ≺ of_ℕ 1) ≡ true
    pub fraction : F
    pub has_fraction : divide (estimate ⊖ price) (of_ℕ 1 ⊖ price) ≡ ok fraction
    pub within_kelly : (kelly variant fraction ≺ amount) ≡ false
    pub within_trade_max : (config.risk.per_trade_max_usd ≺ amount) ≡ false
    pub within_bankroll : ((fl.decimal 2 2 ⊗ config.bankroll_usd) ≺ amount) ≡ false
    pub remaining : F
    pub has_remaining : remaining_allocation variant l ≡ ok remaining
    pub within_allocation : (remaining ≺ amount) ≡ false

  clamped_bounds :
      IsOrdered fl
      → (k m b r : F)
      → let x = min (min (min k m) b) r in
        ((k ≺ x) ≡ false) × ((m ≺ x) ≡ false) × ((b ≺ x) ≡ false) × ((r ≺ x) ≡ false)
  clamped_bounds laws k m b r =
      let inner = min_le laws k m in
      let middle = min_le laws (min k m) b in
      let outer = min_le laws (min (min k m) b) r in
      let up = λ (z : F) (h : (z ≺ min k m) ≡ false).
        not_lt-min laws z (min (min k m) b) r (not_lt-min laws z (min k m) b h) in
      (up k inner.0, up m inner.1, not_lt-min laws b (min (min k m) b) r middle.1, outer.1)

  pub live_stake-IsClamped :
      IsOrdered fl
      → (config : Config F) (variant : Variant F) (price amount : F) (win_prob : Option F)
        (l : Ledger F)
      → live_stake config variant price win_prob l ≡ ok (stake amount)
      → IsClamped config variant price amount win_prob l
  unfolding live_stake
  live_stake-IsClamped laws config variant price amount none l h = absurd (ground arith)
  live_stake-IsClamped laws config variant price amount (some q) l h =
      elim (Bool-cases (nought ≺ price && price ≺ of_ℕ 1)) [
        | inr outside ↦ absurd (ground arith)
        | inl inside ↦ elim (Result-cases (divide (q ⊖ price) (of_ℕ 1 ⊖ price))) [
          | inr (e, failed) ↦ absurd (ground arith)
          | inl (fraction, divided) ↦ elim (Result-cases (remaining_allocation variant l)) [
            | inr (e, failed) ↦ absurd (ground arith)
            | inl (remaining, known) ↦
                let bounds =
                  clamped_bounds laws (kelly variant fraction) config.risk.per_trade_max_usd
                    (fl.decimal 2 2 ⊗ config.bankroll_usd) remaining in
                let same : clamped config variant fraction remaining ≡ amount = ground arith in
                record {
                  estimate = q;
                  has_estimate = refl;
                  priced = ground arith;
                  below_one = ground arith;
                  fraction = fraction;
                  has_fraction = divided;
                  within_kelly = rw same at bounds.0;
                  within_trade_max = rw same at bounds.1;
                  within_bankroll = rw same at bounds.2;
                  remaining = remaining;
                  has_remaining = known;
                  within_allocation = rw same at bounds.3;
                }
          ]
        ]
      ]
