-- ===== src/Rulesets.antt =====
-- engine/rulesets.py: each rule-set maps one snapshot and one variant's params to a Decision.
pub mod Guarded
pub mod Entries
pub mod Momentum
pub mod Fade
pub mod Skew
use i_am_not_a_trader_bot.Prelude.{Bool, not, ◌&&◌, Option, none, some, str_eq, if◌then◌else◌}
use i_am_not_a_trader_bot.Prelude.Result.{Result, ok, err, assertion_error, value_error, ◌>>=◌}
use i_am_not_a_trader_bot.Float.{Float, ◌≺◌, ◌≼◌, ◌≐◌, nought, of_ℕ, abs, divide}
use i_am_not_a_trader_bot.Signals.{
  Side, up, down, FeatureSnapshot, btc_move_usd, impulse_available, best_ask, skew_ratio,
}
use i_am_not_a_trader_bot.Config.{Params, item, Variant}

pub data Action : Type 0 where
  enter skip : Action

-- The machine-readable reasons of a Decision.
pub data Reason : Type 0 where
  skip_stale_quote skip_stale_spot skip_impulse_unavailable skip_outside_window : Reason
  skip_impulse_below_min skip_missing_price skip_ambiguous_tie skip_no_favorite : Reason
  skip_invalid_price skip_underdog_too_expensive : Reason
  skip_skew_unavailable skip_no_skew skip_skew_move_disagree : Reason
  entered_momentum entered_fade entered_skew : Side → Reason

pub record Decision (F : Type 0) : Type 0 where
  pub action : Action
  pub side : Option Side
  pub limit_price : Option F
  pub reason : Reason

-- What `_directional_move` returns: a move, or a Decision to skip.
pub data Move (F : Type 0) : Type 0 where
  moved : F → Move F
  skipped : Decision F → Move F

module _ {F : Type 0} where
  abbrev pub skip_for : Reason → Decision F
  skip_for reason = record { action = skip; side = none; limit_price = none; reason = reason }

  abbrev pub enter_at : Side → F → Reason → Decision F
  enter_at side ask reason = record {
    action = enter;
    side = some side;
    limit_price = some ask;
    reason = reason;
  }

module _ {F : Type 0} ⦃fl : Float F⦄ where
  unfoldable pub common_guards : FeatureSnapshot F → Params F → Result (Option (Decision F))
  common_guards snap params =
      if snap.quote_stale
      then ok (some (skip_for skip_stale_quote))
      else if snap.spot_stale
      then ok (some (skip_for skip_stale_spot))
      else if not (impulse_available snap)
      then ok (some (skip_for skip_impulse_unavailable))
      else do
        window_min ← item "entry_window_sec_min" params
        window_max ← item "entry_window_sec_max" params
        ok (
            if window_min ≼ snap.seconds_to_close && snap.seconds_to_close ≼ window_max
            then none
            else some (skip_for skip_outside_window))

  abbrev directional : Params F → F → Result (Move F)
  directional params move =
      if move ≐ nought then ok (skipped (skip_for skip_impulse_below_min)) else do
        minimum ← item "min_impulse_usd" params
        ok (if abs move ≺ minimum then skipped (skip_for skip_impulse_below_min) else moved move)

  unfoldable pub directional_move : FeatureSnapshot F → Params F → Result (Move F)
  directional_move snap params = elim (btc_move_usd snap) [
    | none ↦ err assertion_error
    | some move ↦ directional params move
  ]

  -- The part of the rule-sets before they differ: the guards, then the directional move.
  abbrev pub guarded :
      FeatureSnapshot F → Params F → (F → Result (Decision F)) → Result (Decision F)
  guarded snap params body = do
    guard ← common_guards snap params
    elim guard [
      | some d ↦ ok d
      | none ↦ do
        m ← directional_move snap params
        elim m [ skipped d ↦ ok d | moved move ↦ body move ]
    ]

  abbrev pub is_favorite : F → F → Bool
  is_favorite minimum ask = minimum ≼ ask && ask ≺ of_ℕ 1

  -- The rest of `momentum_follow`, once both asks and the minimum are at hand.
  unfoldable pub follow : F → F → F → F → Decision F
  follow minimum move up_ask down_ask =
      if is_favorite minimum up_ask && is_favorite minimum down_ask
      then if down_ask ≺ up_ask
        then enter_at up up_ask (entered_momentum up)
        else if up_ask ≺ down_ask
        then enter_at down down_ask (entered_momentum down)
        else skip_for skip_ambiguous_tie
      else if nought ≺ move
      then if is_favorite minimum up_ask
        then enter_at up up_ask (entered_momentum up)
        else skip_for skip_no_favorite
      else if is_favorite minimum down_ask
      then enter_at down down_ask (entered_momentum down)
      else skip_for skip_no_favorite

  abbrev pub follow_asks : Params F → F → Option F → Option F → Result (Decision F)
  follow_asks params move (some up_ask) (some down_ask) = do
    minimum ← item "favorite_min_price" params
    ok (follow minimum move up_ask down_ask)
  follow_asks params move none _ = ok (skip_for skip_missing_price)
  follow_asks params move (some _) none = ok (skip_for skip_missing_price)

  unfoldable pub momentum_follow : FeatureSnapshot F → Params F → Result (Decision F)
  momentum_follow snap params =
      guarded snap params λ move. follow_asks params move snap.up_best_ask snap.down_best_ask

  abbrev pub fade_ask : Params F → Side → Option F → Result (Decision F)
  fade_ask params side none = ok (skip_for skip_missing_price)
  fade_ask params side (some ask) = if ask ≼ nought then ok (skip_for skip_invalid_price) else do
    maximum ← item "underdog_max_price" params
    ok (
        if maximum ≺ ask
        then skip_for skip_underdog_too_expensive
        else enter_at side ask (entered_fade side))

  unfoldable pub contrarian_fade : FeatureSnapshot F → Params F → Result (Decision F)
  contrarian_fade snap params = guarded snap params λ move.
      let side : Side = if nought ≺ move then down else up in
      fade_ask params side (best_ask side snap)

  -- The side that the resting money supports; `1 / minimum` is only reached below the minimum.
  unfoldable pub skew_side : F → F → Result (Option Side)
  skew_side skew minimum =
      if minimum ≼ skew
      then ok (some up)
      else do inverse ← divide (of_ℕ 1) minimum; ok (if skew ≼ inverse then some down else none)

  abbrev pub skew_ask : Side → Option F → Decision F
  skew_ask side none = skip_for skip_missing_price
  skew_ask side (some ask) = enter_at side ask (entered_skew side)

  abbrev pub agrees : Side → F → Bool
  agrees up move = nought ≺ move
  agrees down move = not (nought ≺ move)

  -- What follows the choice of a side, or of none.
  abbrev pub skew_chosen : FeatureSnapshot F → F → Option Side → Result (Decision F)
  skew_chosen snap move none = ok (skip_for skip_no_skew)
  skew_chosen snap move (some side) =
      if agrees side move
      then ok (skew_ask side (best_ask side snap))
      else ok (skip_for skip_skew_move_disagree)

  abbrev pub skew_body : FeatureSnapshot F → Params F → F → F → Result (Decision F)
  skew_body snap params move skew = do
    minimum ← item "min_notional_imbalance" params
    chosen ← skew_side skew minimum
    skew_chosen snap move chosen

  unfoldable pub skew_filter : FeatureSnapshot F → Params F → Result (Decision F)
  skew_filter snap params = guarded snap params λ move. elim (skew_ratio snap) [
    | none ↦ ok (skip_for skip_skew_unavailable)
    | some skew ↦ skew_body snap params move skew
  ]

  unfoldable pub evaluate : Variant F → FeatureSnapshot F → Result (Decision F)
  evaluate variant snap =
      if str_eq variant.ruleset_name "momentum_follow"
      then momentum_follow snap variant.params
      else if str_eq variant.ruleset_name "contrarian_fade"
      then contrarian_fade snap variant.params
      else if str_eq variant.ruleset_name "skew_filter"
      then skew_filter snap variant.params
      else err value_error
