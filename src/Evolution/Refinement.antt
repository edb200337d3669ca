-- ===== src/Evolution/Refinement.antt =====
-- A whole review against the promotion machine.
use i_am_not_a_trader_bot.Prelude.{
  Bool, true, false, ◌≡◌, refl, sym, ap, ◌∙◌, subst, Option, none, some, Each,
}
use i_am_not_a_trader_bot.Prelude.Result.{Error, Result, ok, err, map_ok}
use i_am_not_a_trader_bot.Float.{Float}
use i_am_not_a_trader_bot.Config.{Config}
use i_am_not_a_trader_bot.Config.Validation.{check_config, ids_of, load}
use i_am_not_a_trader_bot.Ledger.Admin.{IsAdmin, IsAdmin-refl}
use i_am_not_a_trader_bot.Evolution.State.{Files, kept_or_restored}
use i_am_not_a_trader_bot.Evolution.Promotions.{
  Desk, Review, review_all, settle_review, review_loaded, review_promotions,
}
use i_am_not_a_trader_bot.Evolution.Machine.{Reaches}
use i_am_not_a_trader_bot.Evolution.Turns.{Reached, Reached-refl}
use i_am_not_a_trader_bot.Evolution.Walks.{Walk, start-Walk}

module _ {F : Type 0} ⦃fl : Float F⦄ (desk : Desk F) (config : Config F) (s : Files F) where
  -- What is left of a configuration file that held `config`.
  abbrev Refined : Files F → Type 0
  Refined after =
      (d : Config F) × (after.config_file ≡ some d)
      × (check_config d ≡ ok tt)
      × (d ≡ record config { variants = d.variants })
      × Reached desk config s config.variants d.variants
      × IsAdmin s.ledger after.ledger

  settle_review-Refined :
      (x : Result Bool) (r : Review F)
      → s.config_file ≡ some config
      → check_config config ≡ ok tt
      → Walk desk config s (record { files = s; raw = config.variants }) r
      → Refined (settle_review desk config (x, r)).1
  settle_review-Refined (err e) r there loads w = (
    config,
    w.same_file ∙ there,
    loads,
    refl,
    Reached-refl desk config s config.variants,
    w.admin,
  )
  settle_review-Refined (ok false) r there loads w = (
    config,
    w.same_file ∙ there,
    loads,
    refl,
    Reached-refl desk config s config.variants,
    w.admin,
  )
  settle_review-Refined (ok true) r there loads w =
      written (check_config (record config { variants = r.raw })) refl
    where
      written :
          (checked : Result (Unit {0}))
          → check_config (record config { variants = r.raw }) ≡ checked
          → Refined
              (kept_or_restored r.files.config_file
                (record (r.files) { config_file = some (record config { variants = r.raw }) })
                (map_ok (λ _. record config { variants = r.raw }) checked)).1
      written (ok tt) e = (record config { variants = r.raw }, refl, e, refl, w.moved, w.admin)
      written (err error) e = (
        config,
        w.same_file ∙ there,
        loads,
        refl,
        Reached-refl desk config s config.variants,
        w.admin,
      )

  loaded-Refined :
      s.config_file ≡ some config
      → check_config config ≡ ok tt
      → Refined (review_loaded desk (ok config) s).1
  loaded-Refined there loads =
      let start : Review F = record { files = s; raw = config.variants } in
      settle_review-Refined (review_all desk config (ids_of config.variants) start).0
        (review_all desk config (ids_of config.variants) start).1 there loads
        (start-Walk desk config s loads)

  -- A review of a configuration file that holds a configuration in its ranges, whatever notices,
  -- vetoes and bootstrap it meets and whether it returns or raises, leaves such a file: it differs
  -- from the former in its variants only, and each variant has gone by transitions of the promotion
  -- machine: to pending promotion with a fundable checkpoint, from there to retired with a veto or
  -- to live with no veto and a delivered notice whose veto window is over, and to retired when its
  -- challenger has won the paired comparison. The ledger has new risk and variant events at most.
  pub review_promotions-Refines :
      s.config_file ≡ some config
      → check_config config ≡ ok tt
      → let after = (review_promotions desk s).1 in
        (d : Config F) × (after.config_file ≡ some d)
        × (check_config d ≡ ok tt)
        × (d ≡ record config { variants = d.variants })
        × Each (Reaches desk config s) config.variants d.variants
        × IsAdmin s.ledger after.ledger
  unfolding review_promotions
  review_promotions-Refines there loads =
      let found = ap load there ∙ ap (λ x. map_ok (λ _. config) x) loads in
      subst (λ (x : Result (Config F)). Refined (review_loaded desk x s).1) (sym found)
        (loaded-Refined there loads)

  settle_review_restores :
      (x : Result Bool) (r : Review F) (e : Error)
      → Walk desk config s (record { files = s; raw = config.variants }) r
      → (settle_review desk config (x, r)).0 ≡ err e
      → (settle_review desk config (x, r)).1.config_file ≡ s.config_file
  settle_review_restores (err raised) r e w h = w.same_file
  settle_review_restores (ok false) r e w h = cc
  settle_review_restores (ok true) r e w h =
      written (check_config (record config { variants = r.raw })) h
    where
      written :
          (checked : Result (Unit {0}))
          → let after =
              kept_or_restored r.files.config_file
                (record (r.files) { config_file = some (record config { variants = r.raw }) })
                (map_ok (λ _. record config { variants = r.raw }) checked) in
            after.0 ≡ err e → after.1.config_file ≡ s.config_file
      written (ok tt) k = cc
      written (err error) k = w.same_file

  -- A review that raises, at a malformed notice, a failed read of the ledger or a document that
  -- does not load, leaves the configuration file as it was: no promotion, veto or retirement of it
  -- is written, also those of the variants that came before.
  pub review_promotions_restores :
      (e : Error)
      → s.config_file ≡ some config
      → check_config config ≡ ok tt
      → (review_promotions desk s).0 ≡ err e
      → (review_promotions desk s).1.config_file ≡ some config
  unfolding review_promotions
  review_promotions_restores e there loads h =
      let found = ap load there ∙ ap (λ x. map_ok (λ _. config) x) loads in
      let start : Review F = record { files = s; raw = config.variants } in
      let walked = review_all desk config (ids_of config.variants) start in
      let raised = subst (λ (x : Result (Config F)). (review_loaded desk x s).0 ≡ err e) found h in
      ap (λ x. (review_loaded desk x s).1.config_file) found
      ∙ settle_review_restores walked.0 walked.1 e (start-Walk desk config s loads) raised
      ∙ there

-- Whatever the configuration file holds, a review adds events to the ledger at most.
pub review_promotions-IsAdmin :
    {F : Type 0} ⦃fl : Float F⦄ (desk : Desk F) (s : Files F)
    → IsAdmin s.ledger (review_promotions desk s).1.ledger
unfolding review_promotions
review_promotions-IsAdmin {F} desk s = of_file s.config_file refl
  where
    abides : Result (Config F) → Type 0
    abides x = IsAdmin s.ledger (review_loaded desk x s).1.ledger

    of_config :
        (c : Config F) (checked : Result (Unit {0}))
        → s.config_file ≡ some c
        → check_config c ≡ checked
        → abides (map_ok (λ _. c) checked)
    of_config c (ok tt) there e =
        let (d, at_d, loads, same, moved, admin) = loaded-Refined desk c s there e in admin
    of_config c (err error) there e = IsAdmin-refl s.ledger

    of_file : (f : Option (Config F)) → s.config_file ≡ f → abides (load f)
    of_file none e = IsAdmin-refl s.ledger
    of_file (some c) e = of_config c (check_config c) e refl
