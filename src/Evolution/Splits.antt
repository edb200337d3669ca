-- ===== src/Evolution/Splits.antt =====
-- engine/evolution.py: the catalog of splits, and the statistical case of a proposal. numpy's
-- resampling of a difference of means is a parameter: from two samples and the level to the ends.
use i_am_not_a_trader_bot.Prelude.{
  ℕ, String, Bool, true, false, Option, none, some, List, [], ◌∷◌, foldl, length, ltb,
  if◌then◌else◌, ◌||◌,
}
use i_am_not_a_trader_bot.Float.{Float, ◌≺◌, ◌≼◌, ◌⊕◌, ◌⊖◌, ◌⊗◌, abs, nought, of_ℕ}
use i_am_not_a_trader_bot.Config.{Params, get}
use i_am_not_a_trader_bot.Signals.{FeatureSnapshot}

abbrev pub min_bucket_n : ℕ
min_bucket_n = 20

pub data Dimension : Type 0 where
  entry_time impulse_size : Dimension

-- A resolved trade's pnl, with the features of its entry.
abbrev pub Sample : Type 0 → Type 0
Sample F = F × FeatureSnapshot F

pub record Split (F : Type 0) : Type 0 where
  pub dimension : Dimension
  pub a : List F
  pub b : List F
  pub param_if_a_wins : Option (String × F)
  pub param_if_b_wins : Option (String × F)

pub record Case (F : Type 0) : Type 0 where
  pub dimension : Dimension
  pub n_a : ℕ
  pub n_b : ℕ
  pub mean_diff : F
  pub ci : F × F

pub record Proposal (F : Type 0) : Type 0 where
  pub parent_id : String
  pub dimension : Dimension
  pub params_diff : List (String × F)
  pub detail : Case F

abbrev pub Resample : Type 0 → Type 0
Resample F = List F → List F → F → F × F

module _ {F : Type 0} ⦃fl : Float F⦄ where
  -- PROPOSAL_CI_LEVEL
  abbrev pub proposal_ci_level : F
  proposal_ci_level = fl.decimal 99 2

  -- `bootstrap_diff_ci`: (None, None) if either sample is empty.
  abbrev pub bootstrap_diff_ci : Resample F → List F → List F → F → Option (F × F)
  bootstrap_diff_ci resample [] b level = none
  bootstrap_diff_ci resample (x ∷ a) [] level = none
  bootstrap_diff_ci resample (x ∷ a) (y ∷ b) level = some (resample (x ∷ a) (y ∷ b) level)

  -- `_btc_move` of a stored snapshot, which has no `btc_move_usd`.
  abbrev pub btc_move : FeatureSnapshot F → Option F
  btc_move features = elim features.btc_open [
    | none ↦ none
    | some open_price ↦ elim features.btc_last [
      | none ↦ none
      | some last_price ↦ some (last_price ⊖ open_price)
    ]
  ]

  -- The pnls whose features pass a test, or fail it; none where there is nothing to test.
  abbrev pub choose : Bool → Option Bool → F → List F → List F
  choose wanted none pnl rest = rest
  choose true (some true) pnl rest = pnl ∷ rest
  choose true (some false) pnl rest = rest
  choose false (some true) pnl rest = rest
  choose false (some false) pnl rest = pnl ∷ rest

  abbrev pub half : (FeatureSnapshot F → Option Bool) → Bool → List (Sample F) → List F
  half test wanted [] = []
  half test wanted ((pnl, features) ∷ rest) =
      choose wanted (test features) pnl (half test wanted rest)

  abbrev pub midpoint : F → F → F
  midpoint lo hi = fl.div (lo ⊕ hi) (of_ℕ 2)

  abbrev pub is_late : F → FeatureSnapshot F → Option Bool
  is_late middle features = some (features.seconds_to_close ≺ middle)

  abbrev pub time_split : Option F → Option F → List (Sample F) → Option (Split F)
  time_split (some lo) (some hi) samples = some (record {
    dimension = entry_time;
    a = half (is_late (midpoint lo hi)) true samples;
    b = half (is_late (midpoint lo hi)) false samples;
    param_if_a_wins = some ("entry_window_sec_max", midpoint lo hi);
    param_if_b_wins = some ("entry_window_sec_min", midpoint lo hi);
  })
  time_split none hi samples = none
  time_split (some lo) none samples = none

  unfoldable pub entry_time_split : Params F → List (Sample F) → Option (Split F)
  entry_time_split params samples =
      time_split (get "entry_window_sec_min" params) (get "entry_window_sec_max" params) samples

  abbrev pub move_at_least : F → Option F → Option Bool
  move_at_least threshold none = none
  move_at_least threshold (some move) = some (threshold ≼ abs move)

  -- IMPULSE_SPLIT_FACTOR
  abbrev pub impulse_threshold : F → F
  impulse_threshold min_impulse = fl.decimal 15 1 ⊗ min_impulse

  abbrev pub impulse_split : Option F → List (Sample F) → Option (Split F)
  impulse_split none samples = none
  impulse_split (some min_impulse) samples =
      let is_big =
        λ (s : FeatureSnapshot F). move_at_least (impulse_threshold min_impulse) (btc_move s) in
      some (record {
        dimension = impulse_size;
        a = half is_big true samples;
        b = half is_big false samples;
        param_if_a_wins = some ("min_impulse_usd", impulse_threshold min_impulse);
        param_if_b_wins = none;
      })

  unfoldable pub impulse_size_split : Params F → List (Sample F) → Option (Split F)
  impulse_size_split params samples = impulse_split (get "min_impulse_usd" params) samples

  -- `sum(xs) / n`
  abbrev pub mean : List F → F
  mean xs = fl.div (foldl (λ (sum x : F). sum ⊕ x) nought xs) (of_ℕ (length xs))

  abbrev pub proposed : String → Split F → F × F → Option (String × F) → Option (Proposal F)
  proposed parent_id split ci none = none
  proposed parent_id split ci (some winner) = some (record {
    parent_id = parent_id;
    dimension = split.dimension;
    params_diff = winner ∷ [];
    detail = record {
      dimension = split.dimension;
      n_a = length split.a;
      n_b = length split.b;
      mean_diff = mean split.a ⊖ mean split.b;
      ci = ci;
    };
  })

  -- Which half wins: the interval excludes zero, or there is no challenger.
  abbrev pub judge : String → Split F → Option (F × F) → Option (Proposal F)
  judge parent_id split none = none
  judge parent_id split (some (low, high)) =
      if nought ≺ low
      then proposed parent_id split (low, high) split.param_if_a_wins
      else if high ≺ nought
      then proposed parent_id split (low, high) split.param_if_b_wins
      else none

  -- The proposal of a split, if its case is good enough.
  unfoldable pub case_of : Resample F → String → Split F → Option (Proposal F)
  case_of resample parent_id split =
      if ltb (length split.a) min_bucket_n || ltb (length split.b) min_bucket_n
      then none
      else judge parent_id split (bootstrap_diff_ci resample split.a split.b proposal_ci_level)
