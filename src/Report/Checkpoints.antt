-- ===== src/Report/Checkpoints.antt =====
-- The sequential funding gate: its checkpoints, and that a verdict stands between two of them.
use i_am_not_a_trader_bot.Prelude.{
  zero, ◌/◌, ◌*◌, ◌-◌, ap, suc, ltb, take, length, Bool-cases, arith, ◌⊎◌, ◌≡◌, ◌≤◌, All, Bool,
  keep, List, ◌<◌, ℕ, ◌++◌, ◌+◌, ◌∷◌, [], inr, inl, some, none, false, refl,
}
use native.Mathlib.Nat.{div-mul-le_self, lt-div-mul-add}
use i_am_not_a_trader_bot.Float.{Float}
use i_am_not_a_trader_bot.Report.{
  before, Bootstrap, at_reference, verdict_on, insert_row, fundable_on, checkpoint_for,
  chronological,
}
use i_am_not_a_trader_bot.Config.{GateConfig, Config}
use i_am_not_a_trader_bot.Ledger.{PnlRow}

take-append {ℓ} :
    {A : Type ℓ} (n : ℕ) (xs ys : List A) → n ≤ length xs → take n (xs ++ ys) ≡ take n xs
take-append zero xs ys h = refl
take-append (suc n) [] ys h = absurd (omega arith)
take-append (suc n) (x ∷ xs) ys h = ap (λ t. x ∷ t) (take-append n xs ys (omega arith))

-- The last multiple of i up to d, and the next one.
multiple_bounds :
    (m n i : ℕ) → 0 < i → m ≤ n → (m + (n - m) / i * i ≤ n) × (n < m + (n - m) / i * i + i)
multiple_bounds m n i positive h =
    let low = div-mul-le_self (n - m) i in
    let high = lt-div-mul-add {a = n - m} {b = i} positive in
    let q = (n - m) / i * i in bounds q low high
  where
    bounds : (q : ℕ) → q ≤ n - m → n - m < q + i → (m + q ≤ n) × (n < m + q + i)
    bounds q a b = (omega arith, omega arith)

module _ {F : Type 0} where
  -- What a checkpoint is: the at_least of them is `min_trades`, they lie `checkpoint_interval` apart,
  -- and this is the last one that n trades have reached.
  pub record IsCheckpoint (n : ℕ) (gate : GateConfig F) (at_n : ℕ) : Type 0 where
    pub at_least : gate.min_trades ≤ at_n
    pub reached : at_n ≤ n
    pub step : (k : ℕ) × (at_n ≡ gate.min_trades + k * gate.checkpoint_interval)
    pub last : n < at_n + gate.checkpoint_interval

module _ {F : Type 0} ⦃fl : Float F⦄ where
  -- `checkpoint_for` returns None below `min_trades` trades, and from there on the last checkpoint
  -- that n has reached, for a positive interval.
  pub checkpoint_for-IsCheckpoint :
      (n : ℕ) (gate : GateConfig F)
      → 0 < gate.checkpoint_interval
      → ((checkpoint_for n gate ≡ none) × (n < gate.min_trades))
        ⊎ ((at_n : ℕ) × (checkpoint_for n gate ≡ some at_n) × IsCheckpoint n gate at_n)
  unfolding checkpoint_for
  checkpoint_for-IsCheckpoint n gate h = elim (Bool-cases (ltb n gate.min_trades)) [
    | inl few ↦ inl (ground arith, ground arith)
    | inr many ↦
        let bounds = multiple_bounds gate.min_trades n gate.checkpoint_interval h (ground arith) in
        inr (
          gate.min_trades
              + (n - gate.min_trades) / gate.checkpoint_interval * gate.checkpoint_interval,
          ground arith,
          record {
            at_least = omega arith;
            reached = bounds.0;
            step = ((n - gate.min_trades) / gate.checkpoint_interval, refl);
            last = bounds.1;
          },
        )
  ]

  -- Every row of the list is not before `r`.
  abbrev pub NoneBefore : PnlRow F → List (PnlRow F) → Type 0
  NoneBefore r qs = All (λ q. before q r ≡ false) qs

  -- All of `later` come after all of `rows`, in the order of their time and id.
  abbrev pub Later : List (PnlRow F) → List (PnlRow F) → Type 0
  Later rows later = All (λ r. NoneBefore r later) rows

  insert_row-append :
      (r : PnlRow F) (qs later : List (PnlRow F))
      → NoneBefore r later
      → insert_row r (qs ++ later) ≡ insert_row r qs ++ later
  insert_row-append r [] [] h = refl
  insert_row-append r [] (q ∷ later) h = ground (arith, h.0)
  insert_row-append r (q ∷ qs) later h = elim (Bool-cases (before q r)) [
    | inl is_before ↦ rw (is_before, insert_row-append r qs later h) refl
    | inr is_after ↦ rw is_after refl
  ]

  insert_row-All :
      (P : PnlRow F → Type 0) (r : PnlRow F) (qs : List (PnlRow F))
      → P r
      → All P qs
      → All P (insert_row r qs)
  insert_row-All P r [] p h = (p, tt)
  insert_row-All P r (q ∷ qs) p h = elim (Bool-cases (before q r)) [
    | inl is_before ↦ rw is_before (h.0, insert_row-All P r qs p h.1)
    | inr is_after ↦ rw is_after (p, h)
  ]

  chronological-All :
      (P : PnlRow F → Type 0) (rows : List (PnlRow F)) → All P rows → All P (chronological rows)
  unfolding chronological
  chronological-All P [] h = tt
  chronological-All P (r ∷ rs) h =
      insert_row-All P r (chronological rs) h.0 (chronological-All P rs h.1)

  chronological-append :
      (rows later : List (PnlRow F))
      → Later rows later
      → chronological (rows ++ later) ≡ chronological rows ++ chronological later
  unfolding chronological
  chronological-append [] later h = refl
  chronological-append (r ∷ rs) later h = rw (chronological-append rs later h.1) (
      insert_row-append r (chronological rs) (chronological later)
        (chronological-All (λ q. before q r ≡ false) later h.0))

  keep-append :
      (p : PnlRow F → Bool) (xs ys : List (PnlRow F)) → keep p (xs ++ ys) ≡ keep p xs ++ keep p ys
  keep-append p [] ys = refl
  keep-append p (x ∷ xs) ys = elim (Bool-cases (p x)) [
    | inl kept ↦ rw (kept, keep-append p xs ys) refl
    | inr dropped ↦ rw (dropped, keep-append p xs ys) refl
  ]

  keep-All :
      (P : PnlRow F → Type 0) (p : PnlRow F → Bool) (xs : List (PnlRow F))
      → All P xs
      → All P (keep p xs)
  keep-All P p [] h = tt
  keep-All P p (x ∷ xs) h = elim (Bool-cases (p x)) [
    | inl kept ↦ rw kept (h.0, keep-All P p xs h.1)
    | inr dropped ↦ rw dropped (keep-All P p xs h.1)
  ]

  keep-Later :
      (p : PnlRow F → Bool) (rows later : List (PnlRow F))
      → Later rows later
      → Later (keep p rows) (keep p later)
  keep-Later p [] later h = tt
  keep-Later p (r ∷ rs) later h = elim (Bool-cases (p r)) [
    | inl kept ↦ rw kept (keep-All (λ q. before q r ≡ false) p later h.0, keep-Later p rs later h.1)
    | inr dropped ↦ rw dropped (keep-Later p rs later h.1)
  ]

  -- The rows that the gate looks at, in its order.
  abbrev pub gate_rows : Config F → List (PnlRow F) → List (PnlRow F)
  gate_rows config rows = chronological (keep (at_reference config) rows)

  gate_rows-append :
      (config : Config F) (rows later : List (PnlRow F))
      → Later rows later
      → gate_rows config (rows ++ later) ≡ gate_rows config rows ++ gate_rows config later
  gate_rows-append config rows later h = rw (keep-append (at_reference config) rows later) (
      chronological-append (keep (at_reference config) rows) (keep (at_reference config) later)
        (keep-Later (at_reference config) rows later h))

  -- No optional stopping: trades that come later leave the verdict as it is, as long as no further
  -- checkpoint is reached. The interval is positive.
  pub fundable_on-append :
      (bootstrap : Bootstrap F) (gate : GateConfig F) (config : Config F)
      (rows later : List (PnlRow F))
      → 0 < gate.checkpoint_interval
      → Later rows later
      → checkpoint_for (length (gate_rows config (rows ++ later))) gate
        ≡ checkpoint_for (length (gate_rows config rows)) gate
      → fundable_on bootstrap (rows ++ later) gate config ≡ fundable_on bootstrap rows gate config
  unfolding fundable_on verdict_on
  fundable_on-append bootstrap gate config rows later positive h same =
      elim (checkpoint_for-IsCheckpoint (length (gate_rows config rows)) gate positive) [
        | inl (nothing, few) ↦ rw (same, nothing) refl
        | inr (n, reached, bounds) ↦
            rw
              (
                same,
                reached,
                gate_rows-append config rows later h,
                take-append n (gate_rows config rows) (gate_rows config later) bounds.reached,
              )
              refl
      ]
