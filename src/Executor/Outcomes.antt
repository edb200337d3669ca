-- ===== src/Executor/Outcomes.antt =====
-- `ResolutionPoller.poll` against the trades, the resolutions and the answers of Gamma.
use i_am_not_a_trader_bot.Prelude.{
  ℕ, ◌+◌, String, Bool, true, false, not, ◌&&◌, ◌||◌, ◌≡◌, refl, ◌∙◌, inl, inr, Option, none, some,
  List, [], ◌∷◌, any, All, arith, eq_iff, Bool-cases, ap, leb, ltb,
}
use i_am_not_a_trader_bot.Prelude.Result.{Result}
use i_am_not_a_trader_bot.Float.{Float, ◌≺◌, ◌⊖◌, of_ℕ}
use i_am_not_a_trader_bot.Signals.{Side, bucket_sec}
use i_am_not_a_trader_bot.Ledger.{
  Ledger, Trade, Outcome, real, unresolved_timeout, voided, is_resolution,
}
use i_am_not_a_trader_bot.Ledger.Unique.{Unique}
use i_am_not_a_trader_bot.Executor.{
  Market, same_key, due, poll, unresolved_buckets, insert_by_bucket, sort_by_bucket,
  unresolved_from,
}
use i_am_not_a_trader_bot.Executor.Markets.{
  insert-All, market_of, unresolved_buckets-Unique, any-unresolved_buckets,
}
use i_am_not_a_trader_bot.Executor.Polls.{
  Settled, Appends, add_settled, outcome_of, settled, poll-Appends,
}

-- The buckets do not go down.
abbrev pub Ascends : List Market → Type 0
Ascends [] = Unit
Ascends (k ∷ ks) = All (λ (j : Market). leb k.0 j.0 ≡ true) ks × Ascends ks

above :
    (k j : Market) (js : List Market)
    → leb k.0 j.0 ≡ true
    → All (λ (i : Market). leb j.0 i.0 ≡ true) js
    → All (λ (i : Market). leb k.0 i.0 ≡ true) js
above k j [] le h = tt
above k j (i ∷ js) le h = (ground (arith, h.0), above k j js le h.1)

insert-Ascends : (k : Market) (js : List Market) → Ascends js → Ascends (insert_by_bucket k js)
insert-Ascends k [] h = (tt, tt)
insert-Ascends k (j ∷ js) h = elim (Bool-cases (ltb j.0 k.0)) [
  | inl before ↦ rw before (
    insert-All (λ (i : Market). leb j.0 i.0 ≡ true) k js (ground arith) h.0,
    insert-Ascends k js h.1,
  )
  | inr after ↦
      let le : leb k.0 j.0 ≡ true = ground arith in rw after ((le, above k j js le h.0), h)
]

sort-Ascends : (ks : List Market) → Ascends (sort_by_bucket ks)
sort-Ascends [] = tt
sort-Ascends (k ∷ ks) = insert-Ascends k (sort_by_bucket ks) (sort-Ascends ks)

module _ {F : Type 0} where
  unresolved_buckets-Ascends : (l : Ledger F) → Ascends (unresolved_buckets l)
  unfolding unresolved_buckets
  unresolved_buckets-Ascends l = sort-Ascends (unresolved_from l.resolutions l.trades)

abbrev pub key_of : Settled → Market
key_of (bucket, slug, outcome) = (bucket, slug)

abbrev pub same_settled : Settled → Settled → Bool
same_settled r q = same_key (key_of r) (key_of q)

-- The buckets of rows do not go down.
abbrev pub IsInOrder : List Settled → Type 0
IsInOrder [] = Unit
IsInOrder (r ∷ rs) = All (λ (q : Settled). leb r.0 q.0 ≡ true) rs × IsInOrder rs

abbrev pub is_answer : Option Side → Bool
is_answer none = false
is_answer (some side) = true

module _ {F : Type 0} ⦃fl : Float F⦄ (gamma : String → Option Side) (timeout_sec now : F) where
  -- Is a market closed, and answered or past the timeout?
  abbrev pub is_over : Market → Bool
  is_over (bucket, slug) =
      not (now ≺ of_ℕ (bucket + bucket_sec))
      && (is_answer (gamma slug) || (timeout_sec ≺ (now ⊖ of_ℕ (bucket + bucket_sec))))

  -- The answer, or that there is none and the timeout is over.
  abbrev pub IsOutcome : Settled → Type 0
  IsOutcome (bucket, slug, real side) = gamma slug ≡ some side
  IsOutcome (bucket, slug, unresolved_timeout) =
      (gamma slug ≡ none) × ((timeout_sec ≺ (now ⊖ of_ℕ (bucket + bucket_sec))) ≡ true)
  IsOutcome (bucket, slug, voided) = ⊥

  -- What a poll of the ledger `l` has to settle.
  pub record IsSettled (l : Ledger F) (rows : List Settled) : Type 0 where
    pub in_order : IsInOrder rows
    pub once : Unique same_settled rows
    pub each :
        (k : Market)
        → any (λ (r : Settled). same_key k (key_of r)) rows ≡ (
            any (λ (t : Trade F). same_key k (market_of t)) l.trades
            && not (any (is_resolution k.0 k.1) l.resolutions)
            && is_over k)
    pub outcomes : All IsOutcome rows

  -- The rows that a poll appended.
  pub record Polls (l : Ledger F) (after : Result ℕ × Ledger F) : Type 0 where
    pub rows : List Settled
    pub appends : Appends after l rows
    pub is_settled : IsSettled l rows

  -- A market of the list becomes a row, or does not.
  settled_cases :
      (P : List Settled → Type 0) (b : ℕ) (slug : String) (ks : List Market)
      → (is_over (b, slug) ≡ false → P (settled gamma timeout_sec now ks))
      → ((outcome : Outcome)
          → is_over (b, slug) ≡ true
          → IsOutcome (b, slug, outcome)
          → P ((b, slug, outcome) ∷ settled gamma timeout_sec now ks))
      → P (settled gamma timeout_sec now ((b, slug) ∷ ks))
  settled_cases P b slug ks waits settles = elim (Bool-cases (due now b)) [
    | inr early ↦ rw early (waits (ground arith))
    | inl closed ↦ rw closed (by_answer closed (gamma slug) refl)
  ]
    where
      by_answer :
          due now b ≡ true
          → (answer : Option Side) → gamma slug ≡ answer
          → P (
              add_settled b slug
                (outcome_of gamma timeout_sec now b answer)
                (settled gamma timeout_sec now ks))
      by_answer closed (some side) said = settles (real side) (ground arith) said
      by_answer closed none said = elim (Bool-cases (timeout_sec ≺ (now ⊖ of_ℕ (b + bucket_sec)))) [
        | inl late ↦ rw late (settles unresolved_timeout (ground arith) (said, late))
        | inr early ↦ rw early (waits (ground arith))
      ]

  settled-All :
      (P : Market → Type 0) (ks : List Market)
      → All P ks
      → All (λ (r : Settled). P (key_of r)) (settled gamma timeout_sec now ks)
  settled-All P [] h = tt
  settled-All P ((b, slug) ∷ ks) h =
      settled_cases (All (λ (r : Settled). P (key_of r))) b slug ks (λ _. settled-All P ks h.1)
        (λ outcome _ _. (h.0, settled-All P ks h.1))

  settled-IsInOrder : (ks : List Market) → Ascends ks → IsInOrder (settled gamma timeout_sec now ks)
  settled-IsInOrder [] h = tt
  settled-IsInOrder ((b, slug) ∷ ks) h =
      settled_cases IsInOrder b slug ks (λ _. settled-IsInOrder ks h.1)
        (λ outcome _ _.
          (settled-All (λ (j : Market). leb b j.0 ≡ true) ks h.0, settled-IsInOrder ks h.1))

  settled-IsOutcome : (ks : List Market) → All IsOutcome (settled gamma timeout_sec now ks)
  settled-IsOutcome [] = tt
  settled-IsOutcome ((b, slug) ∷ ks) =
      settled_cases (All IsOutcome) b slug ks (λ _. settled-IsOutcome ks)
        (λ outcome _ is_outcome. (is_outcome, settled-IsOutcome ks))

  -- Keys that compare equal are over alike.
  over_alike : (k j : Market) → same_key k j ≡ true → is_over k ≡ is_over j
  over_alike (b, s) (c, t) h =
      let same_bucket : b ≡ c = ground arith in
      let same_slug : s ≡ t = ground (arith, eq_iff s t) in
      ap (λ (x : ℕ). is_over (x, s)) same_bucket ∙ ap (λ (x : String). is_over (c, x)) same_slug

  any-settled :
      (k : Market) (ks : List Market)
      → any (λ (r : Settled). same_key k (key_of r)) (settled gamma timeout_sec now ks)
        ≡ (any (same_key k) ks && is_over k)
  any-settled k [] = refl
  any-settled k ((b, slug) ∷ ks) =
      settled_cases
        (λ rows.
          any (λ (r : Settled). same_key k (key_of r)) rows
          ≡ (any (same_key k) ((b, slug) ∷ ks) && is_over k))
        b slug ks (λ waits. any-settled k ks ∙ later waits)
        (λ outcome over _. sooner outcome over (any-settled k ks))
    where
      later :
          is_over (b, slug) ≡ false
          → (any (same_key k) ks && is_over k) ≡ (any (same_key k) ((b, slug) ∷ ks) && is_over k)
      later waits = elim (Bool-cases (same_key k (b, slug))) [
        | inr other ↦ ground (arith, other)
        | inl same ↦
            let idle : is_over k ≡ false = over_alike k (b, slug) same ∙ waits in
            rw idle (ground arith)
      ]

      sooner :
          (outcome : Outcome)
          → is_over (b, slug) ≡ true
          → any (λ (r : Settled). same_key k (key_of r)) (settled gamma timeout_sec now ks)
            ≡ (any (same_key k) ks && is_over k)
          → any
              (λ (r : Settled). same_key k (key_of r))
              ((b, slug, outcome) ∷ settled gamma timeout_sec now ks)
            ≡ (any (same_key k) ((b, slug) ∷ ks) && is_over k)
      sooner outcome over others = elim (Bool-cases (same_key k (b, slug))) [
        | inr other ↦ rw other others
        | inl same ↦
            let ended : is_over k ≡ true = over_alike k (b, slug) same ∙ over in
            rw (same, ended) refl
      ]

  settled-Unique :
      (ks : List Market)
      → Unique same_key ks
      → Unique same_settled (settled gamma timeout_sec now ks)
  settled-Unique [] u = tt
  settled-Unique ((b, slug) ∷ ks) u =
      settled_cases (Unique same_settled) b slug ks (λ _. settled-Unique ks u.1)
        (λ outcome _ _. (any-settled (b, slug) ks ∙ ground (arith, u.0), settled-Unique ks u.1))

  -- A poll never raises, and leaves trades and evaluations alone. It appends one resolution row for
  -- each market that has a trade, has no resolution, is past its close, and has an answer or has
  -- timed out, and no row for another market; the buckets of the new rows do not go down, each row
  -- carries the answer, or the timeout where there is none, and the result is the number of the rows.
  pub poll-Polls : (l : Ledger F) → Polls l (poll gamma timeout_sec now l)
  poll-Polls l = record {
    rows = settled gamma timeout_sec now (unresolved_buckets l);
    appends = poll-Appends gamma timeout_sec now l;
    is_settled = record {
      in_order = settled-IsInOrder (unresolved_buckets l) (unresolved_buckets-Ascends l);
      once = settled-Unique (unresolved_buckets l) (unresolved_buckets-Unique l);
      each = λ k.
          any-settled k (unresolved_buckets l)
          ∙ (ap (λ (x : Bool). x && is_over k) (any-unresolved_buckets k l) ∙ regroup k);
      outcomes = settled-IsOutcome (unresolved_buckets l);
    };
  }
    where
      regroup :
          (k : Market)
          → ((any (λ (t : Trade F). same_key k (market_of t)) l.trades
                && not (any (is_resolution k.0 k.1) l.resolutions))
              && is_over k)
            ≡ (any (λ (t : Trade F). same_key k (market_of t)) l.trades
                && not (any (is_resolution k.0 k.1) l.resolutions)
                && is_over k)
      regroup k = elim (Bool-cases (any (λ (t : Trade F). same_key k (market_of t)) l.trades)) [
        | inl traded ↦ rw traded refl
        | inr idle ↦ rw idle refl
      ]
