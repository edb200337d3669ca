-- ===== src/Risk/Sizing.antt =====
-- `Approved`, and the stake of a live entry.
use i_am_not_a_trader_bot.Prelude.{ℕ, String, not, ◌&&◌, Option, none, some, foldl, if◌then◌else◌}
use i_am_not_a_trader_bot.Prelude.Result.{Result, ok, err, value_error, ◌>>=◌}
use i_am_not_a_trader_bot.Float.{Float, ◌≺◌, ◌≼◌, ◌⊕◌, ◌⊖◌, ◌⊗◌, nought, of_ℕ, divide, min}
use i_am_not_a_trader_bot.Signals.{Side}
use i_am_not_a_trader_bot.Config.{Config, Variant, hard_per_trade_max_usd}
use i_am_not_a_trader_bot.Ledger.{
  Mode, Trade, Ledger, Rejection, realized_pnl_rows, total_pnl, open_trades,
}

pub record Approved (F : Type 0) : Type 0 where
  pub variant_id : String
  pub bucket_ts : ℕ
  pub market_slug : String
  pub side : Side
  pub limit_price : F
  pub stake_usd : F
  pub mode : Mode

-- What `_live_stake` returns: a stake, or the reason of a refusal.
pub data Stake (F : Type 0) : Type 0 where
  stake : F → Stake F
  refusal : Rejection → Stake F

module _ {F : Type 0} ⦃fl : Float F⦄ where
  -- The constructor with its `__post_init__`.
  unfoldable pub approve : Approved F → Result (Approved F)
  approve a =
      if not (nought ≺ a.stake_usd)
      then err value_error
      else if hard_per_trade_max_usd ≺ a.stake_usd
      then err value_error
      else ok a

  unfoldable pub remaining_allocation : Variant F → Ledger F → Result F
  remaining_allocation variant l = do
    rows ← realized_pnl_rows variant.id Mode.live l
    let committed =
        foldl (λ (sum : F) (t : Trade F). sum ⊕ t.stake_usd) nought
          (open_trades (some variant.id) (some Mode.live) l)
    ok (variant.allocation_usd ⊕ total_pnl rows ⊖ committed)

  abbrev pub kelly : Variant F → F → F
  kelly variant fraction = fl.decimal 25 2 ⊗ fraction ⊗ variant.allocation_usd

  abbrev pub clamped : Config F → Variant F → F → F → F
  clamped config variant fraction remaining =
      min
        (min (min (kelly variant fraction) config.risk.per_trade_max_usd)
          (fl.decimal 2 2 ⊗ config.bankroll_usd))
        remaining

  unfoldable pub live_stake : Config F → Variant F → F → Option F → Ledger F → Result (Stake F)
  live_stake config variant price none l = ok (refusal Rejection.no_positive_edge)
  live_stake config variant price (some win_prob) l =
      if not (nought ≺ price && price ≺ of_ℕ 1) then ok (refusal Rejection.sized_to_zero) else do
        fraction ← divide (win_prob ⊖ price) (of_ℕ 1 ⊖ price)
        remaining ← remaining_allocation variant l
        let amount = clamped config variant fraction remaining
        ok (if amount ≼ nought then refusal Rejection.sized_to_zero else stake amount)
