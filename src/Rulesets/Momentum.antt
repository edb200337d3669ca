-- ===== src/Rulesets/Momentum.antt =====
-- What holds of the snapshot and the params when `momentum_follow` enters.
use i_am_not_a_trader_bot.Prelude.{true, false, ◌≡◌, ◌⊎◌, inl, inr, Option, none, some, arith, refl}
use i_am_not_a_trader_bot.Prelude.Result.{ok, Result-cases}
use i_am_not_a_trader_bot.Float.{Float, ◌≺◌}
use i_am_not_a_trader_bot.Signals.{Side, up, down, FeatureSnapshot, best_ask}
use i_am_not_a_trader_bot.Config.{Params, item}
use i_am_not_a_trader_bot.Rulesets.{
  Decision, enter, is_favorite, agrees, follow, follow_asks, momentum_follow,
}
use i_am_not_a_trader_bot.Rulesets.Guarded.{IsGuarded, guarded-HasBody}
use i_am_not_a_trader_bot.Rulesets.Entries.{other, Buys}

module _ {F : Type 0} ⦃fl : Float F⦄ where
  -- The side is the move's, unless both sides are priced like favorites: then it is the dearer.
  abbrev pub Follows : F → F → Side → F → F → Type 0
  Follows minimum move side price rival =
      ((is_favorite minimum rival ≡ true) × ((rival ≺ price) ≡ true))
      ⊎ ((is_favorite minimum rival ≡ false) × (agrees side move ≡ true))

  pub record IsMomentumEntry (snap : FeatureSnapshot F) (params : Params F) (d : Decision F)
      : Type 0 where
    pub move : F
    pub guards : IsGuarded snap params move
    pub side : Side
    pub price : F
    pub buys : Buys snap side price d
    pub rival : F
    pub has_rival : best_ask (other side) snap ≡ some rival
    pub minimum : F
    pub has_minimum : item "favorite_min_price" params ≡ ok minimum
    pub favorite : is_favorite minimum price ≡ true
    pub follows : Follows minimum move side price rival

  follow-Follows :
      (minimum move u v : F)
      → (follow minimum move u v).action ≡ enter
      → (((follow minimum move u v).side ≡ some up)
          × ((follow minimum move u v).limit_price ≡ some u)
          × (is_favorite minimum u ≡ true)
          × Follows minimum move up u v)
        ⊎ (((follow minimum move u v).side ≡ some down)
            × ((follow minimum move u v).limit_price ≡ some v)
            × (is_favorite minimum v ≡ true)
            × Follows minimum move down v u)
  unfolding follow
  follow-Follows minimum move u v h = ground arith

  follow_asks-IsMomentumEntry :
      (snap : FeatureSnapshot F) (params : Params F) (move : F) (d : Decision F)
      → IsGuarded snap params move
      → follow_asks params move snap.up_best_ask snap.down_best_ask ≡ ok d
      → d.action ≡ enter
      → IsMomentumEntry snap params d
  follow_asks-IsMomentumEntry snap params move d g h entering =
      asks snap.up_best_ask snap.down_best_ask refl refl
    where
      chosen :
          (u v minimum : F)
          → snap.up_best_ask ≡ some u
          → snap.down_best_ask ≡ some v
          → item "favorite_min_price" params ≡ ok minimum
          → follow minimum move u v ≡ d
          → IsMomentumEntry snap params d
      chosen u v minimum eu ev em same = elim (follow-Follows minimum move u v (ground arith)) [
        | inl (is_up, at_u, fav, how) ↦ record {
          move = move;
          guards = g;
          side = up;
          price = u;
          buys = record { has_side = ground arith; has_price = ground arith; quoted = eu };
          rival = v;
          has_rival = ev;
          minimum = minimum;
          has_minimum = em;
          favorite = fav;
          follows = how;
        }
        | inr (is_down, at_v, fav, how) ↦ record {
          move = move;
          guards = g;
          side = down;
          price = v;
          buys = record { has_side = ground arith; has_price = ground arith; quoted = ev };
          rival = u;
          has_rival = eu;
          minimum = minimum;
          has_minimum = em;
          favorite = fav;
          follows = how;
        }
      ]

      asks :
          (a b : Option F)
          → snap.up_best_ask ≡ a
          → snap.down_best_ask ≡ b
          → IsMomentumEntry snap params d
      asks none _ ea eb = absurd (ground arith)
      asks (some u) none ea eb = absurd (ground arith)
      asks (some u) (some v) ea eb = elim (Result-cases (item "favorite_min_price" params)) [
        | inr (e, missing) ↦ absurd (ground arith)
        | inl (minimum, found) ↦ chosen u v minimum ea eb found (ground arith)
      ]

  -- `momentum_follow` enters only past every guard, at the quoted ask of a favorite below 1, on the
  -- side of the move or, between two favorites, on the dearer side.
  pub momentum_follow-IsMomentumEntry :
      (snap : FeatureSnapshot F) (params : Params F) (d : Decision F)
      → momentum_follow snap params ≡ ok d
      → d.action ≡ enter
      → IsMomentumEntry snap params d
  unfolding momentum_follow
  momentum_follow-IsMomentumEntry snap params d h entering =
      let b = guarded-HasBody snap params _ d h entering in
      follow_asks-IsMomentumEntry snap params b.move d b.guards b.entered entering
