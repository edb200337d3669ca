-- ===== src/Evolution/Walks.antt =====
-- A walk of the review over its variants: each has its turn, and the notices of the others stay.
use i_am_not_a_trader_bot.Prelude.{
  String, true, false, ◌||◌, ◌≡◌, refl, sym, ◌∙◌, subst, Option, none, some, List, [], ◌∷◌, All,
  any, arith, str_eq,
}
use i_am_not_a_trader_bot.Prelude.Result.{Result, ok, err}
use i_am_not_a_trader_bot.Prelude.Py.{Exec, continue, pure, ◌>>=◌}
use i_am_not_a_trader_bot.Float.{Float}
use i_am_not_a_trader_bot.Config.{Config, Variant, Status, get, find_variant}
use i_am_not_a_trader_bot.Config.Validation.{check_config, distinct, ids_of}
use i_am_not_a_trader_bot.Config.Bounds.{check_config-IsBounded}
use i_am_not_a_trader_bot.Ledger.Admin.{IsAdmin, IsAdmin-refl, IsAdmin-trans}
use i_am_not_a_trader_bot.Evolution.Ids.{parent_of}
use i_am_not_a_trader_bot.Evolution.State.{Files}
use i_am_not_a_trader_bot.Evolution.Promotions.{
  Desk, Review, by_status, review_challenger, review_found, review_all,
}
use i_am_not_a_trader_bot.Evolution.Turns.{
  Turn, Turn-refl, Reached, Reached-refl, Reached-trans, find_variant-id, maybe_flag_pending-Turn,
}
use i_am_not_a_trader_bot.Evolution.Advances.{advance_pending-Turn}

module _ {F : Type 0} ⦃fl : Float F⦄ (desk : Desk F) (config : Config F) (s : Files F) where
  module _ (v : Variant F) (r : Review F) (there : find_variant v.id r.raw ≡ some v)
      (books : IsAdmin s.ledger r.files.ledger)
      (kept : get v.id r.files.notices ≡ get v.id s.notices) where
    by_status-Turn :
        (parent_id : String) (status : Status)
        → parent_of v.id ≡ some parent_id
        → v.status ≡ status
        → Turn desk config s v.id r (by_status desk config v parent_id status r).1
    by_status-Turn parent_id Status.shadow child e =
        maybe_flag_pending-Turn desk config s v parent_id r child there books e
    by_status-Turn parent_id Status.pending_promotion child e =
        advance_pending-Turn desk config s v parent_id r child e there books kept
    by_status-Turn parent_id Status.live child e = Turn-refl desk config s v.id r
    by_status-Turn parent_id Status.retired child e = Turn-refl desk config s v.id r

    review_challenger-Turn :
        (parent : Option String)
        → parent_of v.id ≡ parent
        → Turn desk config s v.id r (review_challenger desk config v parent r).1
    review_challenger-Turn none e = Turn-refl desk config s v.id r
    review_challenger-Turn (some parent_id) e = by_status-Turn parent_id v.status e refl

  review_found-Turn :
      (id : String) (r : Review F) (o : Option (Variant F))
      → IsAdmin s.ledger r.files.ledger
      → get id r.files.notices ≡ get id s.notices
      → find_variant id r.raw ≡ o
      → Turn desk config s id r (review_found desk config o r).1
  review_found-Turn id r none books kept e = Turn-refl desk config s id r
  review_found-Turn id r (some v) books kept e =
      let named : v.id ≡ id = find_variant-id id r.raw v e in
      subst (λ (x : String). Turn desk config s x r (review_found desk config (some v) r).1) named
        (review_challenger-Turn v r
          (subst (λ (x : String). find_variant x r.raw ≡ some v) (sym named) e) books
          (subst (λ (x : String). get x r.files.notices ≡ get x s.notices) (sym named) kept)
          (parent_of v.id) refl)

  -- What a part of the review leaves.
  pub record Walk (r r' : Review F) : Type 0 where
    pub admin : IsAdmin r.files.ledger r'.files.ledger
    pub same_file : r'.files.config_file ≡ r.files.config_file
    pub moved : Reached desk config s r.raw r'.raw

  Walk-refl : (r : Review F) → Walk r r
  Walk-refl r = record {
    admin = IsAdmin-refl r.files.ledger;
    same_file = refl;
    moved = Reached-refl desk config s r.raw;
  }

  Walk-trans : (r t u : Review F) → Walk r t → Walk t u → Walk r u
  Walk-trans r t u p q = record {
    admin = IsAdmin-trans r.files.ledger t.files.ledger u.files.ledger p.admin q.admin;
    same_file = q.same_file ∙ p.same_file;
    moved = Reached-trans desk config s r.raw t.raw u.raw p.moved q.moved;
  }

  Walk-then :
      {A B : Type 0} (f : A → Exec (Review F) B) (r : Review F) (x : Result A) (t : Review F)
      → Walk r t
      → ((a : A) → Walk t (f a t).1)
      → Walk r (continue x f t).1
  Walk-then f r (ok a) t p h = Walk-trans r t (f a t).1 p (h a)
  Walk-then f r (err e) t p h = p

  -- The notices of the variants whose turn is still to come.
  abbrev Untouched : List String → Review F → Type 0
  Untouched ids r = All (λ (id : String). get id r.files.notices ≡ get id s.notices) ids

  stays-Untouched :
      (id : String) (ids : List String) (r t : Review F)
      → Turn desk config s id r t
      → any (str_eq id) ids ≡ false
      → Untouched ids r
      → Untouched ids t
  stays-Untouched id [] r t turn apart h = tt
  stays-Untouched id (j ∷ ids) r t turn apart (h, hs) =
      (turn.others j (ground arith) ∙ h, stays-Untouched id ids r t turn (ground arith) hs)

  review_all-Walk :
      (ids : List String) (r : Review F)
      → distinct ids ≡ true
      → IsAdmin s.ledger r.files.ledger
      → Untouched ids r
      → Walk r (review_all desk config ids r).1
  unfolding review_all
  review_all-Walk [] r apart books h = Walk-refl r
  review_all-Walk (id ∷ ids) r apart books (h, hs) =
      let turned = review_found desk config (find_variant id r.raw) r in
      let turn = review_found-Turn id r (find_variant id r.raw) books h refl in
      let t = turned.1 in
      let books' = IsAdmin-trans s.ledger r.files.ledger t.files.ledger books turn.admin in
      let rest = review_all desk config ids t in
      let walk =
        review_all-Walk ids t (ground arith) books'
          (stays-Untouched id ids r t turn (ground arith) hs) in
      Walk-then (λ changed. review_all desk config ids >>= λ others. pure (changed || others)) r
        turned.0 t (record { admin = turn.admin; same_file = turn.same_file; moved = turn.moved })
        (λ changed.
          Walk-then (λ others. pure (changed || others)) t rest.0 rest.1 walk
            (λ others. Walk-refl rest.1))

  untouched :
      (ids : List String) (raw : List (Variant F)) → Untouched ids (record { files = s; raw = raw })
  untouched [] raw = tt
  untouched (id ∷ ids) raw = (refl, untouched ids raw)

  pub start-Walk :
      check_config config ≡ ok tt
      → let start : Review F = record { files = s; raw = config.variants } in
        Walk start (review_all desk config (ids_of config.variants) start).1
  start-Walk loads =
      review_all-Walk (ids_of config.variants) (record { files = s; raw = config.variants })
        (check_config-IsBounded config loads).own_ids (IsAdmin-refl s.ledger)
        (untouched (ids_of config.variants) config.variants)
