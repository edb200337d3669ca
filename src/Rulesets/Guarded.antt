-- ===== src/Rulesets/Guarded.antt =====
-- What a rule-set has checked before its own part runs (`_common_guards`, `_directional_move`).
use i_am_not_a_trader_bot.Prelude.{
  true, false, ◌≡◌, inl, inr, Option, none, some, Option-cases, arith, refl,
}
use i_am_not_a_trader_bot.Prelude.Result.{Result, ok, err, Result-cases}
use i_am_not_a_trader_bot.Float.{Float, ◌≺◌, ◌≼◌, ◌≐◌, nought, abs}
use i_am_not_a_trader_bot.Signals.{FeatureSnapshot, btc_move_usd}
use i_am_not_a_trader_bot.Config.{Params, item}
use i_am_not_a_trader_bot.Rulesets.{
  Decision, enter, skip, common_guards, directional_move, guarded, Move, moved, skipped,
}

module _ {F : Type 0} ⦃fl : Float F⦄ where
  -- The conditions that every rule-set shares, with the params and the move that they name.
  pub record IsGuarded (snap : FeatureSnapshot F) (params : Params F) (move : F) : Type 0 where
    pub window_min : F
    pub window_max : F
    pub min_impulse : F
    pub has_window_min : item "entry_window_sec_min" params ≡ ok window_min
    pub has_window_max : item "entry_window_sec_max" params ≡ ok window_max
    pub has_min_impulse : item "min_impulse_usd" params ≡ ok min_impulse
    pub fresh_quote : snap.quote_stale ≡ false
    pub fresh_spot : snap.spot_stale ≡ false
    pub has_move : btc_move_usd snap ≡ some move
    pub after_start : (window_min ≼ snap.seconds_to_close) ≡ true
    pub before_end : (snap.seconds_to_close ≼ window_max) ≡ true
    pub directed : (move ≐ nought) ≡ false
    pub large : (abs move ≺ min_impulse) ≡ false

  record IsPassed (snap : FeatureSnapshot F) (params : Params F) : Type 0 where
    window_min : F
    window_max : F
    has_window_min : item "entry_window_sec_min" params ≡ ok window_min
    has_window_max : item "entry_window_sec_max" params ≡ ok window_max
    fresh_quote : snap.quote_stale ≡ false
    fresh_spot : snap.spot_stale ≡ false
    after_start : (window_min ≼ snap.seconds_to_close) ≡ true
    before_end : (snap.seconds_to_close ≼ window_max) ≡ true

  common_guards-IsPassed :
      (snap : FeatureSnapshot F) (params : Params F)
      → common_guards snap params ≡ ok none
      → IsPassed snap params
  unfolding common_guards
  common_guards-IsPassed snap params h = elim (Result-cases (item "entry_window_sec_min" params)) [
    | inr (e, missing) ↦ absurd (ground arith)
    | inl (lo, found_lo) ↦ elim (Result-cases (item "entry_window_sec_max" params)) [
      | inr (e, missing) ↦ absurd (ground arith)
      | inl (hi, found_hi) ↦ record {
        window_min = lo;
        window_max = hi;
        has_window_min = found_lo;
        has_window_max = found_hi;
        fresh_quote = ground arith;
        fresh_spot = ground arith;
        after_start = ground arith;
        before_end = ground arith;
      }
    ]
  ]

  -- What `_directional_move` has checked when it returns a move.
  record IsDirected (snap : FeatureSnapshot F) (params : Params F) (move : F) : Type 0 where
    min_impulse : F
    has_min_impulse : item "min_impulse_usd" params ≡ ok min_impulse
    has_move : btc_move_usd snap ≡ some move
    directed : (move ≐ nought) ≡ false
    large : (abs move ≺ min_impulse) ≡ false

  directional_move-IsDirected :
      (snap : FeatureSnapshot F) (params : Params F) (move : F)
      → directional_move snap params ≡ ok (moved move)
      → IsDirected snap params move
  unfolding directional_move
  directional_move-IsDirected snap params move h = elim (Option-cases (btc_move_usd snap)) [
    | inl unknown ↦ absurd (ground arith)
    | inr (m, known) ↦ elim (Result-cases (item "min_impulse_usd" params)) [
      | inr (e, missing) ↦ absurd (ground arith)
      | inl (least, found) ↦ record {
        min_impulse = least;
        has_min_impulse = found;
        has_move = ground arith;
        directed = ground arith;
        large = ground arith;
      }
    ]
  ]

  common_guards-skip :
      (snap : FeatureSnapshot F) (params : Params F) (d : Decision F)
      → common_guards snap params ≡ ok (some d)
      → d.action ≡ skip
  unfolding common_guards
  common_guards-skip snap params d h = elim (Result-cases (item "entry_window_sec_min" params)) [
    | inr (e, missing) ↦ ground arith
    | inl (lo, found_lo) ↦ elim (Result-cases (item "entry_window_sec_max" params)) [
      | inr (e, missing) ↦ ground arith
      | inl (hi, found_hi) ↦ ground arith
    ]
  ]

  directional_move-skip :
      (snap : FeatureSnapshot F) (params : Params F) (d : Decision F)
      → directional_move snap params ≡ ok (skipped d)
      → d.action ≡ skip
  unfolding directional_move
  directional_move-skip snap params d h = elim (Result-cases (item "min_impulse_usd" params)) [
    | inr (e, missing) ↦ ground arith
    | inl (least, found) ↦ ground arith
  ]

  guards_of :
      {snap : FeatureSnapshot F} {params : Params F} {move : F}
      → IsPassed snap params
      → IsDirected snap params move
      → IsGuarded snap params move
  guards_of p q = record {
    window_min = p.window_min;
    window_max = p.window_max;
    min_impulse = q.min_impulse;
    has_window_min = p.has_window_min;
    has_window_max = p.has_window_max;
    has_min_impulse = q.has_min_impulse;
    fresh_quote = p.fresh_quote;
    fresh_spot = p.fresh_spot;
    has_move = q.has_move;
    after_start = p.after_start;
    before_end = p.before_end;
    directed = q.directed;
    large = q.large;
  }

  -- A rule-set that enters has passed the guards, and its own part has entered.
  pub record HasBody (snap : FeatureSnapshot F) (params : Params F) (body : F → Result (Decision F))
      (d : Decision F) : Type 0 where
    pub move : F
    pub guards : IsGuarded snap params move
    pub entered : body move ≡ ok d

  pub guarded-HasBody :
      (snap : FeatureSnapshot F) (params : Params F) (body : F → Result (Decision F))
      (d : Decision F)
      → guarded snap params body ≡ ok d
      → d.action ≡ enter
      → HasBody snap params body d
  guarded-HasBody snap params body d h entering = guard (common_guards snap params) refl
    where
      step :
          (m : Result (Move F))
          → directional_move snap params ≡ m
          → common_guards snap params ≡ ok none
          → HasBody snap params body d
      step (err e) em ec = absurd (ground arith)
      step (ok (skipped d')) em ec =
          absurd (ground (arith, directional_move-skip snap params d' em))
      step (ok (moved move)) em ec = record {
        move = move;
        guards =
            guards_of (common_guards-IsPassed snap params ec)
              (directional_move-IsDirected snap params move em);
        entered = ground arith;
      }

      guard :
          (g : Result (Option (Decision F)))
          → common_guards snap params ≡ g
          → HasBody snap params body d
      guard (err e) ec = absurd (ground arith)
      guard (ok (some d')) ec = absurd (ground (arith, common_guards-skip snap params d' ec))
      guard (ok none) ec = step (directional_move snap params) refl ec
