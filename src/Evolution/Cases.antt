-- ===== src/Evolution/Cases.antt =====
-- The statistical case of a proposal, and why a split makes none.
use i_am_not_a_trader_bot.Prelude.{
  ◌≤◌, ◌<◌, String, true, false, ◌≡◌, refl, subst, ◌⊎◌, inl, inr, Option, none, some, List, [], ◌∷◌,
  length, ltb, arith, Bool-cases,
}
use i_am_not_a_trader_bot.Prelude.Result.{Result, ok}
use i_am_not_a_trader_bot.Float.{Float, ◌≺◌, nought}
use i_am_not_a_trader_bot.Config.{Params}
use i_am_not_a_trader_bot.Ledger.{VariantEvent, record_variant_event}
use i_am_not_a_trader_bot.Evolution.State.{Files}
use i_am_not_a_trader_bot.Evolution.Proposals.{settle_case, evaluate_split}
use i_am_not_a_trader_bot.Evolution.Splits.{
  Split, Proposal, Resample, min_bucket_n, proposal_ci_level, bootstrap_diff_ci, proposed, judge,
  case_of,
}

module _ {F : Type 0} ⦃fl : Float F⦄ (resample : Resample F) where
  -- The case of a proposal: both halves of the split have at least twenty trades, and the interval
  -- on the difference of their means excludes zero, on the side of the half whose one parameter is
  -- proposed.
  pub record IsJustified (parent_id : String) (split : Split F) (p : Proposal F) : Type 0 where
    pub for_parent : p.parent_id ≡ parent_id
    pub enough_a : min_bucket_n ≤ length split.a
    pub enough_b : min_bucket_n ≤ length split.b
    pub low : F
    pub high : F
    pub interval : resample split.a split.b proposal_ci_level ≡ (low, high)
    pub change : String × F
    pub one_change : p.params_diff ≡ change ∷ []
    pub side :
        ((nought ≺ low) ≡ true) × (split.param_if_a_wins ≡ some change)
        ⊎ ((nought ≺ low) ≡ false)
          × ((high ≺ nought) ≡ true)
          × (split.param_if_b_wins ≡ some change)

  -- Why a split makes no proposal.
  pub data Doubt (split : Split F) : Type 0 where
    few_a : length split.a < min_bucket_n → Doubt split
    few_b : length split.b < min_bucket_n → Doubt split
    includes_zero :
        (low high : F)
        → resample split.a split.b proposal_ci_level ≡ (low, high)
        → (nought ≺ low) ≡ false
        → (high ≺ nought) ≡ false
        → Doubt split
    -- the half that wins has no parameter
    no_parameter_a :
        (low high : F)
        → resample split.a split.b proposal_ci_level ≡ (low, high)
        → (nought ≺ low) ≡ true
        → split.param_if_a_wins ≡ none
        → Doubt split
    no_parameter_b :
        (low high : F)
        → resample split.a split.b proposal_ci_level ≡ (low, high)
        → (nought ≺ low) ≡ false
        → (high ≺ nought) ≡ true
        → split.param_if_b_wins ≡ none
        → Doubt split

  bootstrap_diff_ci_lem :
      (a b : List F) (level : F)
      → min_bucket_n ≤ length a
      → min_bucket_n ≤ length b
      → bootstrap_diff_ci resample a b level ≡ some (resample a b level)
  bootstrap_diff_ci_lem [] b level ha hb = absurd (omega arith)
  bootstrap_diff_ci_lem (x ∷ a) [] level ha hb = absurd (omega arith)
  bootstrap_diff_ci_lem (x ∷ a) (y ∷ b) level ha hb = refl

  module _ (parent_id : String) (split : Split F) where
    abbrev Decides : Option (Proposal F) → Type 0
    Decides (some p) = IsJustified parent_id split p
    Decides none = Doubt split

    module _ (enough_a : min_bucket_n ≤ length split.a) (enough_b : min_bucket_n ≤ length split.b)
        (low high : F) (interval : resample split.a split.b proposal_ci_level ≡ (low, high)) where
      a_wins :
          (winner : Option (String × F))
          → (nought ≺ low) ≡ true
          → split.param_if_a_wins ≡ winner
          → Decides (proposed parent_id split (low, high) winner)
      a_wins none above e = no_parameter_a low high interval above e
      a_wins (some change) above e = record {
        for_parent = refl;
        enough_a = enough_a;
        enough_b = enough_b;
        low = low;
        high = high;
        interval = interval;
        change = change;
        one_change = refl;
        side = inl (above, e);
      }

      b_wins :
          (winner : Option (String × F))
          → (nought ≺ low) ≡ false
          → (high ≺ nought) ≡ true
          → split.param_if_b_wins ≡ winner
          → Decides (proposed parent_id split (low, high) winner)
      b_wins none not_above below e = no_parameter_b low high interval not_above below e
      b_wins (some change) not_above below e = record {
        for_parent = refl;
        enough_a = enough_a;
        enough_b = enough_b;
        low = low;
        high = high;
        interval = interval;
        change = change;
        one_change = refl;
        side = inr (not_above, below, e);
      }

      judge-Decides : Decides (judge parent_id split (some (low, high)))
      judge-Decides = elim (Bool-cases (nought ≺ low)) [
        | inl above ↦ rw above (a_wins split.param_if_a_wins above refl)
        | inr not_above ↦ elim (Bool-cases (high ≺ nought)) [
          | inl below ↦ rw (not_above, below) (b_wins split.param_if_b_wins not_above below refl)
          | inr not_below ↦
              rw (not_above, not_below) (includes_zero low high interval not_above not_below)
        ]
      ]

    case_of-Decides : Decides (case_of resample parent_id split)
    unfolding case_of
    case_of-Decides = elim (Bool-cases (ltb (length split.a) min_bucket_n)) [
      | inl few ↦ rw few (few_a (ground arith))
      | inr many ↦ elim (Bool-cases (ltb (length split.b) min_bucket_n)) [
        | inl few ↦ rw (many, few) (few_b (ground arith))
        | inr many_b ↦
            let ci = resample split.a split.b proposal_ci_level in
            rw
              (
                many,
                many_b,
                bootstrap_diff_ci_lem split.a split.b proposal_ci_level (ground arith)
                    (ground arith),
              )
              (judge-Decides (ground arith) (ground arith) ci.0 ci.1 refl)
      ]
    ]

  module _ (now : F) (parent_id : String) (params : Params F) (split : Split F) (s : Files F) where
    abbrev pub Proposes : Result (List (Proposal F)) × Files F → Type 0
    Proposes after = (p : Proposal F) × (after ≡ (ok (p ∷ []), s)) × IsJustified parent_id split p

    abbrev pub with_rejection : Files F
    with_rejection = record s {
      ledger =
          (record_variant_event now parent_id VariantEvent.proposal_rejected params none
            s.ledger).1;
    }

    abbrev pub Rejects : Result (List (Proposal F)) × Files F → Type 0
    Rejects after = Doubt split × (after ≡ (ok [], with_rejection))

    decided :
        (o : Option (Proposal F))
        → case_of resample parent_id split ≡ o
        → Proposes (settle_case resample now parent_id params o s)
          ⊎ Rejects (settle_case resample now parent_id params o s)
    unfolding record_variant_event
    decided (some p) e =
        inl (p, refl, subst (Decides parent_id split) e (case_of-Decides parent_id split))
    decided none e = inr (subst (Decides parent_id split) e (case_of-Decides parent_id split), refl)

  -- A split either returns one proposal that its case justifies (twenty trades or more in both
  -- halves, an interval that excludes zero, and the one parameter of the half that wins) and leaves
  -- all files alone, or returns none because a half is too small, the interval includes zero or the
  -- winning half has no parameter, and leaves a rejection in the ledger and nothing else.
  pub evaluate_split-Decides :
      (now : F) (parent_id : String) (params : Params F) (split : Split F) (s : Files F)
      → Proposes now parent_id params split s (evaluate_split resample now parent_id params split s)
        ⊎ Rejects now parent_id params split s
            (evaluate_split resample now parent_id params split s)
  unfolding evaluate_split
  evaluate_split-Decides now parent_id params split s =
      decided now parent_id params split s (case_of resample parent_id split) refl
