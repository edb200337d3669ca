-- ===== src/Evolution/Spawns.antt =====
-- What a spawned challenger is.
use i_am_not_a_trader_bot.Prelude.{
  ◌≤◌, String, Bool, true, false, ◌≡◌, refl, sym, ap, ◌∙◌, subst, Option, none, some, [], ◌∷◌, ◌++◌,
  length, count_if-append, ltb, ◌==◌, arith,
}
use i_am_not_a_trader_bot.Prelude.Result.{Result, ok, err, map_ok}
use i_am_not_a_trader_bot.Prelude.Py.{Exec, continue, returned-continue, pure, ◌>>=◌, ◌>>◌}
use i_am_not_a_trader_bot.Float.{Float, nought}
use i_am_not_a_trader_bot.Config.{Config, Variant, Status, find_variant}
use i_am_not_a_trader_bot.Config.Validation.{check_config}
use i_am_not_a_trader_bot.Ledger.{VariantEvent, record_variant_event}
use i_am_not_a_trader_bot.Evolution.Ids.{next_challenger_id}
use i_am_not_a_trader_bot.Evolution.State.{Files, on_ledger, kept_or_restored}
use i_am_not_a_trader_bot.Evolution.Splits.{Proposal}
use i_am_not_a_trader_bot.Evolution.Turns.{find_variant-id}
use i_am_not_a_trader_bot.Evolution.Spawning.{
  demand, found, raw_config, is_active_challenger, active_challengers, max_challengers_per_parent,
  changed_keys, child_of, new_params, has_room, is_single, add_child, spawn_from, spawn_challenger,
}

returned-demand :
    {S A : Type 0} (b : Bool) (f : Unit {0} → Exec S A) (s : S) {a : A}
    → ((demand b >>= f) s).0 ≡ ok a
    → (b ≡ true) × ((demand b >>= f) s ≡ f tt s)
returned-demand true f s h = (refl, refl)
returned-demand false f s h = cc

ok_injective : {A : Type 0} {a b : A} → ok a ≡ ok b → a ≡ b
ok_injective h = cc

found-ok : {A : Type 0} (o : Option A) (a : A) → found o ≡ ok a → o ≡ some a
found-ok none a h = cc
found-ok (some b) a h = cc

module _ {F : Type 0} ⦃fl : Float F⦄ where
  abbrev pub with_child : Config F → Variant F → Config F
  with_child c child = record c { variants = c.variants ++ child ∷ [] }

  pub record IsChallenger (c : Config F) (parent child : Variant F) : Type 0 where
    pub in_shadow : child.status ≡ Status.shadow
    pub unfunded : child.allocation_usd ≡ nought
    pub same_rules : child.ruleset_name ≡ parent.ruleset_name
    pub one_change : length (changed_keys child.params parent.params) ≡ 1
    pub named : child.id ≡ next_challenger_id c.variants parent.id
    pub few : active_challengers (c.variants ++ child ∷ []) parent.id ≤ max_challengers_per_parent
    pub loads : check_config (with_child c child) ≡ ok tt

  add_child_lem :
      (now : F) (c : Config F) (parent_id : String) (child : Variant F) (s : Files F) (id : String)
      → (add_child now c parent_id child s).0 ≡ ok id
      → (child.id ≡ id)
        × (check_config (with_child c child) ≡ ok tt)
        × ((add_child now c parent_id child s).1.config_file ≡ some (with_child c child))
  unfolding record_variant_event
  add_child_lem now c parent_id child s id h = written (check_config (with_child c child)) refl h
    where
      written :
          (checked : Result (Unit {0}))
          → check_config (with_child c child) ≡ checked
          → let w =
              kept_or_restored s.config_file
                (record s { config_file = some (with_child c child) })
                (map_ok (λ _. with_child c child) checked) in
            let done =
              continue w.0
                (λ _.
                  on_ledger (
                    record_variant_event now child.id VariantEvent.created child.params
                      (some parent_id))
                  >> pure child.id)
                w.1 in
            done.0 ≡ ok id
            → (child.id ≡ id)
              × (check_config (with_child c child) ≡ ok tt)
              × (done.1.config_file ≡ some (with_child c child))
      written (ok tt) e k = (ground arith, e, refl)
      written (err error) e k = cc

  -- The count of challengers, of which the new one is at most one more.
  few_after :
      (c : Config F) (parent_id : String) (child : Variant F)
      → ltb (active_challengers c.variants parent_id) max_challengers_per_parent ≡ true
      → active_challengers (c.variants ++ child ∷ []) parent_id ≤ max_challengers_per_parent
  unfolding active_challengers
  few_after c parent_id child h =
      ground (arith, count_if-append (is_active_challenger parent_id) c.variants (child ∷ []))

  spawn_from_lem :
      (now : F) (c : Config F) (p : Proposal F) (parent : Variant F) (s : Files F) (id : String)
      → find_variant p.parent_id c.variants ≡ some parent
      → (spawn_from now c p parent s).0 ≡ ok id
      → let child = child_of c.variants parent (new_params p parent) in
        (child.id ≡ id)
        × IsChallenger c parent child
        × ((spawn_from now c p parent s).1.config_file ≡ some (with_child c child))
  spawn_from_lem now c p parent s id there h =
      let child = child_of c.variants parent (new_params p parent) in
      let (room, after_room) = returned-demand (has_room c p) _ s h in
      let h' = subst (λ (x : Result String × Files F). x.0 ≡ ok id) after_room h in
      let (single, after_single) = returned-demand (is_single p parent) _ s h' in
      let h'' = subst (λ (x : Result String × Files F). x.0 ≡ ok id) after_single h' in
      let same = after_room ∙ after_single in
      let (named, loads, written) = add_child_lem now c p.parent_id child s id h'' in
      let parent_named = find_variant-id p.parent_id c.variants parent there in
      (
        named,
        record {
          in_shadow = refl;
          unfunded = refl;
          same_rules = refl;
          one_change = ground (arith, single);
          named = refl;
          few =
              subst
                (λ (x : String).
                  active_challengers (c.variants ++ child ∷ []) x ≤ max_challengers_per_parent)
                (sym parent_named) (few_after c p.parent_id child room);
          loads = loads;
        },
        ap (λ (x : Result String × Files F). x.1.config_file) same ∙ written,
      )

  -- A spawn that returns has appended one variant to the configuration file, which still passes its
  -- checks: a shadow variant without money, with the parent's rule-set, whose params differ from
  -- the parent's in exactly one key, under the next id; the parent has at most two active
  -- challengers then.
  pub spawn_challenger-IsChallenger :
      (now : F) (p : Proposal F) (s : Files F) (c : Config F) (id : String)
      → s.config_file ≡ some c
      → (spawn_challenger now p s).0 ≡ ok id
      → (parent : Variant F) × (child : Variant F) × (find_variant p.parent_id c.variants
          ≡ some parent)
        × (child.id ≡ id)
        × IsChallenger c parent child
        × ((spawn_challenger now p s).1.config_file ≡ some (with_child c child))
  unfolding spawn_challenger
  spawn_challenger-IsChallenger now p s c id there h =
      let (_, first) = returned-demand (length p.params_diff == 1) _ s h in
      let h1 = subst (λ (x : Result String × Files F). x.0 ≡ ok id) first h in
      let (raw, read, second) = returned-continue (raw_config s.config_file) _ s h1 in
      let h2 = subst (λ (x : Result String × Files F). x.0 ≡ ok id) second h1 in
      let (parent, at, third) =
        returned-continue (found (find_variant p.parent_id raw.variants)) _ s h2 in
      let h3 = subst (λ (x : Result String × Files F). x.0 ≡ ok id) third h2 in
      let same_config : raw ≡ c = ok_injective (sym read ∙ ap raw_config there) in
      let same = first ∙ second ∙ third in
      let seen = found-ok (find_variant p.parent_id raw.variants) parent at in
      let (named, is_challenger, written) = spawn_from_lem now raw p parent s id seen h3 in
      subst
        (λ (x : Config F).
          (parent : Variant F) × (child : Variant F) × (find_variant p.parent_id x.variants
            ≡ some parent)
          × (child.id ≡ id)
          × IsChallenger x parent child
          × ((spawn_challenger now p s).1.config_file ≡ some (with_child x child)))
        same_config
        (
          parent,
          child_of raw.variants parent (new_params p parent),
          seen,
          named,
          is_challenger,
          ap (λ (x : Result String × Files F). x.1.config_file) same ∙ written,
        )
