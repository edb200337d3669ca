-- ===== src/Report/Overlap.antt =====
-- The paired comparison looks at the buckets that both variants have, and at no other.
use i_am_not_a_trader_bot.Prelude.{
  ℕ, ◌≡◌, ◌∙◌, ap, refl, inl, inr, Option, none, some, List, [], ◌∷◌, Bool-cases, arith, ltb, ◌==◌,
  if◌then◌else◌,
}
use i_am_not_a_trader_bot.Float.{Float, ◌⊖◌}
use i_am_not_a_trader_bot.Report.{pnl_at, insert_diff, overlap_diffs}

module _ {F : Type 0} ⦃fl : Float F⦄ where
  -- The challenger's pnl less the champion's, where both are there.
  abbrev pub both : Option F → Option F → Option F
  both (some challenger) (some champion) = some (challenger ⊖ champion)
  both none _ = none
  both (some challenger) none = none

  pnl_at-insert_diff :
      (k b : ℕ) (x : F) (ds : List (ℕ × F))
      → pnl_at k (insert_diff b x ds) ≡ (if k == b then some x else pnl_at k ds)
  pnl_at-insert_diff k b x [] = refl
  pnl_at-insert_diff k b x ((c, y) ∷ ds) = elim (Bool-cases (ltb c b)) [
    | inr here ↦ rw here refl
    | inl later ↦ rw later (elim (Bool-cases (k == c)) [
      | inl found ↦ rw found (ground (arith, later, found))
      | inr elsewhere ↦ rw elsewhere (pnl_at-insert_diff k b x ds)
    ])
  ]

  both_alone : (o : Option F) → both o none ≡ none
  both_alone none = refl
  both_alone (some y) = refl

  -- At every bucket the difference is there exactly where both variants have a pnl, and is the
  -- challenger's less the champion's.
  pub pnl_at-overlap_diffs :
      (k : ℕ) (champ chall : List (ℕ × F))
      → pnl_at k (overlap_diffs champ chall) ≡ both (pnl_at k chall) (pnl_at k champ)
  unfolding overlap_diffs
  pnl_at-overlap_diffs k champ [] = refl
  pnl_at-overlap_diffs k champ ((b, y) ∷ chall) =
      by_champion (pnl_at-overlap_diffs k champ chall) (pnl_at b champ) refl
    where
      by_champion :
          pnl_at k (overlap_diffs champ chall) ≡ both (pnl_at k chall) (pnl_at k champ)
          → (p : Option F) → pnl_at b champ ≡ p
          → pnl_at k (elim p [
            | none ↦ overlap_diffs champ chall
            | some x ↦ insert_diff b (y ⊖ x) (overlap_diffs champ chall)
          ])
            ≡ both (if k == b then some y else pnl_at k chall) (pnl_at k champ)
      by_champion rest none alone = elim (Bool-cases (k == b)) [
        | inr elsewhere ↦ rw elsewhere rest
        | inl here ↦
            let same : b ≡ k = ground arith in
            let missing : pnl_at k champ ≡ none = rw same at alone in
            rw (here, missing)
              (rest ∙ ap (both (pnl_at k chall)) missing ∙ both_alone (pnl_at k chall))
      ]
      by_champion rest (some x) shared =
          pnl_at-insert_diff k b (y ⊖ x) (overlap_diffs champ chall) ∙ elim (Bool-cases (k == b)) [
            | inr elsewhere ↦ rw elsewhere rest
            | inl here ↦
                let same : b ≡ k = ground arith in
                let there : pnl_at k champ ≡ some x = rw same at shared in rw (here, there) refl
          ]
