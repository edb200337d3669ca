-- ===== src/Evolution/Spawning.antt =====
-- engine/evolution.py: `spawn_challenger` and `propose_and_spawn`.
use i_am_not_a_trader_bot.Prelude.{
  ℕ, String, Bool, true, false, not, ◌&&◌, Option, none, some, List, [], ◌∷◌, ◌++◌, keep, length,
  count_if, ltb, ◌==◌, if◌then◌else◌,
}
use i_am_not_a_trader_bot.Prelude.Result.{Error, Result, ok, err, key_error, evolution_error}
use i_am_not_a_trader_bot.Prelude.Py.{Exec, pure, raise, lift, gets_result, ◌>>=◌, ◌>>◌}
use i_am_not_a_trader_bot.Float.{Float, ◌≐◌, nought}
use i_am_not_a_trader_bot.Config.{Config, Variant, Params, Status, get, find_variant, is_active}
use i_am_not_a_trader_bot.Ledger.{
  VariantEvent, evolution_spawn_skipped, record_variant_event, record_risk_event,
}
use i_am_not_a_trader_bot.Evolution.Ids.{challenger_number, next_challenger_id}
use i_am_not_a_trader_bot.Evolution.State.{Files, on_ledger, put, write_raw_config}
use i_am_not_a_trader_bot.Evolution.Splits.{Proposal, Resample}
use i_am_not_a_trader_bot.Evolution.Proposals.{propose_challengers}

abbrev pub max_challengers_per_parent : ℕ
max_challengers_per_parent = 2

abbrev pub is_some {ℓ} : {A : Type ℓ} → Option A → Bool
is_some none = false
is_some (some _) = true

-- `raise EvolutionError` unless the test holds.
abbrev pub demand : {S : Type 0} → Bool → Exec S (Unit {0})
demand true = pure tt
demand false = raise evolution_error

abbrev pub found : {A : Type 0} → Option A → Result A
found none = err evolution_error
found (some a) = ok a

abbrev pub is_evolution_error : Error → Bool
is_evolution_error evolution_error = true
is_evolution_error _ = false

module _ {F : Type 0} where
  -- Does this variant count against the parent's challengers?
  abbrev pub is_active_challenger : String → Variant F → Bool
  is_active_challenger parent_id v =
      is_some (challenger_number parent_id v.id) && is_active v.status

  unfoldable pub active_challengers : List (Variant F) → String → ℕ
  active_challengers variants parent_id = count_if (is_active_challenger parent_id) variants

  -- `d.update(diff)`
  abbrev pub update : Params F → Params F → Params F
  update params [] = params
  update params ((k, v) ∷ diff) = update (put k v params) diff

  -- The raw document; without `variants` the read of that key raises.
  abbrev pub raw_config : Option (Config F) → Result (Config F)
  raw_config none = err key_error
  raw_config (some c) = ok c

  -- Parent params with the one difference, in shadow, without money.
  abbrev pub child_of : List (Variant F) → Variant F → ⦃fl : Float F⦄ → Params F → Variant F
  child_of variants parent params = record {
    id = next_challenger_id variants parent.id;
    ruleset_name = parent.ruleset_name;
    status = Status.shadow;
    allocation_usd = nought;
    params = params;
  }

module _ {F : Type 0} ⦃fl : Float F⦄ where
  -- `a == b` of what `get` returns.
  abbrev pub same_value : Option F → Option F → Bool
  same_value none none = true
  same_value none (some _) = false
  same_value (some _) none = false
  same_value (some x) (some y) = x ≐ y

  abbrev pub differing : Params F → Params F → Params F → List String
  differing p q [] = []
  differing p q ((k, _) ∷ rest) =
      let others = differing p q rest in
      if same_value (get k p) (get k q) then others else k ∷ others

  -- The keys of either dict at which they differ.
  unfoldable pub changed_keys : Params F → Params F → List String
  changed_keys p q =
      differing p q p ++ differing p q (keep (λ (e : String × F). not (is_some (get e.0 p))) q)

  abbrev pub new_params : Proposal F → Variant F → Params F
  new_params p parent = update parent.params p.params_diff

  abbrev pub has_room : Config F → Proposal F → Bool
  has_room raw p = ltb (active_challengers raw.variants p.parent_id) max_challengers_per_parent

  abbrev pub is_single : Proposal F → Variant F → Bool
  is_single p parent = length (changed_keys (new_params p parent) parent.params) == 1

  module _ (now : F) where
    abbrev pub add_child : Config F → String → Variant F → Exec (Files F) String
    add_child raw parent_id child = do
      write_raw_config (record raw { variants = raw.variants ++ child ∷ [] })
      on_ledger
          (record_variant_event now child.id VariantEvent.created child.params (some parent_id))
      pure child.id

    abbrev pub spawn_from : Config F → Proposal F → Variant F → Exec (Files F) String
    spawn_from raw p parent = do
      demand (has_room raw p)
      demand (is_single p parent)
      add_child raw p.parent_id (child_of raw.variants parent (new_params p parent))

    unfoldable pub spawn_challenger : Proposal F → Exec (Files F) String
    spawn_challenger p = do
      demand (length p.params_diff == 1)
      raw ← gets_result (λ (s : Files F). raw_config s.config_file)
      parent ← lift (found (find_variant p.parent_id raw.variants))
      spawn_from raw p parent

    -- The `except EvolutionError`: the proposal is dropped with a risk event.
    abbrev pub caught : Result String × Files F → Result (List String) × Files F
    caught (ok id, s) = (ok (id ∷ []), s)
    caught (err e, s) =
        if is_evolution_error e
        then (do on_ledger (record_risk_event now evolution_spawn_skipped); pure []) s
        else (err e, s)

    unfoldable pub spawn_all : List (Proposal F) → Exec (Files F) (List String)
    spawn_all [] = pure []
    spawn_all (p ∷ ps) = do
      first ← (λ s. caught (spawn_challenger p s))
      rest ← spawn_all ps
      pure (first ++ rest)

    unfoldable pub propose_and_spawn : Resample F → Exec (Files F) (List String)
    propose_and_spawn resample = do
      proposals ← propose_challengers resample now
      spawn_all proposals
