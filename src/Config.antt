-- ===== src/Config.antt =====
-- engine/config.py: the validated configuration.
pub mod Validation
pub mod Rules
pub mod Bounds
use i_am_not_a_trader_bot.Prelude.{
  not, ◌==◌, ◌&&◌, length, ℕ, String, Bool, true, false, List, [], ◌∷◌, Option, none, some, str_eq,
  keep, if◌then◌else◌,
}
use i_am_not_a_trader_bot.Prelude.Result.{config_error, Result, ok, err, key_error}
use i_am_not_a_trader_bot.Float.{◌≐◌, Float, of_ℕ}

pub data Status : Type 0 where
  shadow live pending_promotion retired : Status

-- A dict with text keys, as the association list of its items.
abbrev pub Params : Type 0 → Type 0
Params F = List (String × F)

-- `d.get(key)`
abbrev pub get {ℓ} : {V : Type ℓ} → String → List (String × V) → Option V
get key [] = none
get key ((k, v) ∷ rest) = if str_eq k key then some v else get key rest

-- `d[key]`
abbrev pub item {ℓ} : {V : Type ℓ} → String → List (String × V) → Result V
item key [] = err key_error
item key ((k, v) ∷ rest) = if str_eq k key then ok v else item key rest

pub record RiskConfig (F : Type 0) : Type 0 where
  pub per_trade_max_usd : F
  pub daily_loss_cap_pct : F
  pub max_live_trades_per_day : ℕ
  pub max_spread : F
  pub min_top_depth_usd : F
  pub max_quote_staleness_sec : F
  pub consecutive_failure_halt : ℕ
  pub exit_before_sec : ℕ

pub record GateConfig (F : Type 0) : Type 0 where
  pub min_trades : ℕ
  pub checkpoint_interval : ℕ
  pub ci_level : F

pub record KillConfig (F : Type 0) : Type 0 where
  pub drawdown_pct_of_allocation : F
  pub consecutive_daily_cap_hits : ℕ

pub record Variant (F : Type 0) : Type 0 where
  pub id : String
  pub ruleset_name : String
  pub status : Status
  pub allocation_usd : F
  pub params : Params F

abbrev pub is_active : Status → Bool
is_active retired = false
is_active shadow = true
is_active live = true
is_active pending_promotion = true

abbrev pub is_live : Status → Bool
is_live live = true
is_live shadow = false
is_live pending_promotion = false
is_live retired = false

pub record Config (F : Type 0) : Type 0 where
  pub version : ℕ
  pub strategy_md_version : String
  pub bankroll_usd : F
  pub reference_stake_usd : F
  pub risk : RiskConfig F
  pub gate : GateConfig F
  pub kill : KillConfig F
  pub variants : List (Variant F)
  pub strategy_md_drift : Bool

module _ {F : Type 0} where
  unfoldable pub active_variants : Config F → List (Variant F)
  active_variants c = keep (λ v. is_active v.status) c.variants

  unfoldable pub live_variants : Config F → List (Variant F)
  live_variants c = keep (λ v. is_live v.status) c.variants

abbrev pub hard_per_trade_max_usd : {F : Type 0} ⦃fl : Float F⦄ → F
hard_per_trade_max_usd = of_ℕ 5

module _ {F : Type 0} ⦃fl : Float F⦄ where
  abbrev has_value : Option F → F → Bool
  has_value none v = false
  has_value (some w) v = w ≐ v

  abbrev all_in : Params F → Params F → Bool
  all_in q [] = true
  all_in q ((k, v) ∷ rest) = has_value (get k q) v && all_in q rest

  -- `p == q` for dicts: as many items, and every item of one in the other.
  unfoldable pub params_eq : Params F → Params F → Bool
  params_eq p q = length p == length q && all_in q p

  -- `next((v for v in variants if v.id == variant_id), None)`
  abbrev pub find_variant : String → List (Variant F) → Option (Variant F)
  find_variant variant_id [] = none
  find_variant variant_id (v ∷ vs) =
      if str_eq v.id variant_id then some v else find_variant variant_id vs

  -- Is an edit of a variant that was live and is live an edit of its params?
  abbrev pub breaks_freeze : Variant F → Variant F → Bool
  breaks_freeze variant old =
      is_live old.status && is_live variant.status && not (params_eq variant.params old.params)

  -- `check_frozen_variants`, whose dict has one entry for each id; `load_config` refuses a
  -- configuration with two variants of one id.
  unfoldable pub check_frozen : List (Variant F) → List (Variant F) → Result (Unit {0})
  check_frozen [] prior = ok tt
  check_frozen (variant ∷ rest) prior =
      let after = check_frozen rest prior in
      elim (find_variant variant.id prior) [
        | none ↦ after
        | some old ↦ if breaks_freeze variant old then err config_error else after
      ]
