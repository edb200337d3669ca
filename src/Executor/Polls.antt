-- ===== src/Executor/Polls.antt =====
-- `ResolutionPoller.poll` against the list of the rows that its loop writes.
use mathlib.Core.List.{append-nil, append_assoc}
use i_am_not_a_trader_bot.Prelude.{
  ℕ, ◌+◌, String, Bool, true, false, ◌||◌, ◌≡◌, refl, sym, ◌∙◌, inl, inr, Option, none, some, List,
  [], ◌∷◌, ◌++◌, map, any, All, length, arith, eq_iff, Bool-cases, ap, Option-cases, if◌then◌else◌,
}
use i_am_not_a_trader_bot.Prelude.Result.{Result, ok, err, map_ok}
use i_am_not_a_trader_bot.Prelude.Py.{Exec, pure, continue, ◌>>=◌}
use i_am_not_a_trader_bot.Float.{Float}
use i_am_not_a_trader_bot.Signals.{Side}
use i_am_not_a_trader_bot.Ledger.{
  Ledger, Outcome, real, unresolved_timeout, Resolution, is_resolution, record_resolution,
  record_risk_event,
}
use i_am_not_a_trader_bot.Ledger.Unique.{Unique}
use i_am_not_a_trader_bot.Executor.{
  Market, same_key, due, timed_out, settle, poll_markets, poll, unresolved_buckets,
}
use i_am_not_a_trader_bot.Executor.Markets.{
  IsUnresolved, unresolved_buckets-Unique, unresolved_buckets-IsUnresolved,
}

abbrev pub Settled : Type 0
Settled = ℕ × String × Outcome

abbrev pub add_settled : ℕ → String → Option Outcome → List Settled → List Settled
add_settled bucket slug none rest = rest
add_settled bucket slug (some outcome) rest = (bucket, slug, outcome) ∷ rest

module _ {F : Type 0} ⦃fl : Float F⦄ (gamma : String → Option Side) (timeout_sec now : F) where
  -- What becomes of a market past its close: the answer, or after the timeout the lack of one.
  abbrev pub outcome_of : ℕ → Option Side → Option Outcome
  outcome_of bucket (some side) = some (real side)
  outcome_of bucket none =
      if timed_out timeout_sec now bucket then some unresolved_timeout else none

  -- The markets that are past their close and have an outcome, in order.
  abbrev pub settled : List Market → List Settled
  settled [] = []
  settled ((bucket, slug) ∷ rest) =
      let after = settled rest in
      if due now bucket
      then add_settled bucket slug (outcome_of bucket (gamma slug)) after
      else after

module _ {F : Type 0} where
  abbrev pub row_of : Resolution F → Settled
  row_of r = (r.bucket_ts, r.market_slug, r.outcome)

  map-snoc :
      (xs : List (Resolution F)) (r : Resolution F)
      → map row_of (xs ++ r ∷ []) ≡ map row_of xs ++ row_of r ∷ []
  map-snoc [] r = refl
  map-snoc (x ∷ xs) r = ap (λ t. row_of x ∷ t) (map-snoc xs r)

  any-snoc :
      (p : Resolution F → Bool) (xs : List (Resolution F)) (r : Resolution F)
      → any p (xs ++ r ∷ []) ≡ (any p xs || p r)
  any-snoc p [] r = ground arith
  any-snoc p (x ∷ xs) r = ground (arith, any-snoc p xs r)

  -- A new resolution of one market leaves the others unresolved.
  still-IsUnresolved :
      (rs : List (Resolution F)) (r : Resolution F) (ks : List Market)
      → any (same_key (r.bucket_ts, r.market_slug)) ks ≡ false
      → All (IsUnresolved rs) ks
      → All (IsUnresolved (rs ++ r ∷ [])) ks
  still-IsUnresolved rs r [] other h = tt
  still-IsUnresolved rs r ((b, s) ∷ ks) other h = (
    ground (arith, any-snoc (is_resolution b s) rs r, eq_iff r.market_slug s, h.0),
    still-IsUnresolved rs r ks (ground arith) h.1,
  )

module _ {F : Type 0} where
  -- What a call that began at `l` has done: it returned how many rows it appended to the resolutions,
  -- which are those for `done`, and left the trades and evaluations alone.
  pub record Appends (after : Result ℕ × Ledger F) (l : Ledger F) (done : List Settled)
      : Type 0 where
    pub returned : after.0 ≡ ok (length done)
    pub resolutions : map row_of after.1.resolutions ≡ map row_of l.resolutions ++ done
    pub trades : after.1.trades ≡ l.trades
    pub evaluations : after.1.evaluations ≡ l.evaluations

  -- One market settled, with its row.
  record Settles (after : Result ℕ × Ledger F) (l : Ledger F) (row : Settled) : Type 0 where
    resolution : Resolution F
    for_row : row_of resolution ≡ row
    returned : after.0 ≡ ok 1
    resolutions : after.1.resolutions ≡ l.resolutions ++ resolution ∷ []
    trades : after.1.trades ≡ l.trades
    evaluations : after.1.evaluations ≡ l.evaluations

module _ {F : Type 0} ⦃fl : Float F⦄ (gamma : String → Option Side) (timeout_sec now : F) where
  settle-Settles :
      (b : ℕ) (slug : String) (answer : Option Side) (outcome : Outcome) (l : Ledger F)
      → IsUnresolved l.resolutions (b, slug)
      → outcome_of gamma timeout_sec now b answer ≡ some outcome
      → Settles (settle timeout_sec now (b, slug) answer l) l (b, slug, outcome)
  unfolding settle record_resolution record_risk_event
  settle-Settles b slug (some side) outcome l fresh h = rw fresh (record {
    resolution = _;
    for_row = ground arith;
    returned = refl;
    resolutions = refl;
    trades = refl;
    evaluations = refl;
  })
  settle-Settles b slug none outcome l fresh h = elim (Bool-cases (timed_out timeout_sec now b)) [
    | inr early ↦ absurd (ground arith)
    | inl late ↦
        rw (late, fresh)
          (record {
            resolution = _;
            for_row = ground arith;
            returned = refl;
            resolutions = refl;
            trades = refl;
            evaluations = refl;
          })
  ]

  settle-none :
      (b : ℕ) (slug : String) (answer : Option Side) (l : Ledger F)
      → outcome_of gamma timeout_sec now b answer ≡ none
      → settle timeout_sec now (b, slug) answer l ≡ (ok 0, l)
  unfolding settle
  settle-none b slug (some side) l h = absurd (ground arith)
  settle-none b slug none l h = elim (Bool-cases (timed_out timeout_sec now b)) [
    | inl late ↦ absurd (ground arith)
    | inr early ↦ rw early refl
  ]

  -- One row more.
  Appends-cons :
      (after rest : Result ℕ × Ledger F) (l : Ledger F) (row : Settled) (done : List Settled)
      → Settles after l row
      → Appends rest after.1 done
      → Appends (map_ok (λ m. 1 + m) rest.0, rest.1) l (row ∷ done)
  Appends-cons after rest l row done s a = record {
    returned = rw a.returned (ground arith);
    resolutions =
        a.resolutions
        ∙ rw (s.resolutions, map-snoc l.resolutions s.resolution, s.for_row)
            (append_assoc (map row_of l.resolutions) (row ∷ []) done);
    trades = a.trades ∙ s.trades;
    evaluations = a.evaluations ∙ s.evaluations;
  }

  then-eq :
      (n : ℕ) (m : Exec (Ledger F) ℕ) (l : Ledger F)
      → (do k ← m; pure (n + k)) l ≡ (map_ok (λ k. n + k) (m l).0, (m l).1)
  then-eq n m l = by_result (m l)
    where
      by_result :
          (r : Result ℕ × Ledger F)
          → continue r.0 (λ k. pure (n + k)) r.1 ≡ (map_ok (λ k. n + k) r.0, r.1)
      by_result (ok k, t) = refl
      by_result (err e, t) = refl

  poll-due :
      (b : ℕ) (slug : String) (ks : List Market) (n : ℕ) (l : Ledger F)
      → due now b ≡ true
      → (settle timeout_sec now (b, slug) (gamma slug) l).0 ≡ ok n
      → let rest =
          poll_markets gamma timeout_sec now ks
            (settle timeout_sec now (b, slug) (gamma slug) l).1 in
        poll_markets gamma timeout_sec now ((b, slug) ∷ ks) l ≡ (map_ok (λ k. n + k) rest.0, rest.1)
  unfolding poll_markets
  poll-due b slug ks n l closed returned =
      rw (closed, returned)
        (then-eq n (poll_markets gamma timeout_sec now ks)
          (settle timeout_sec now (b, slug) (gamma slug) l).1)

  poll_markets-Appends :
      (ks : List Market) (l : Ledger F)
      → Unique same_key ks
      → All (IsUnresolved l.resolutions) ks
      → Appends (poll_markets gamma timeout_sec now ks l) l (settled gamma timeout_sec now ks)
  unfolding poll_markets
  poll_markets-Appends [] l u h = record {
    returned = refl;
    resolutions = sym (append-nil (map row_of l.resolutions));
    trades = refl;
    evaluations = refl;
  }
  poll_markets-Appends ((b, slug) ∷ ks) l u h = elim (Bool-cases (due now b)) [
    | inr early ↦ rw early (poll_markets-Appends ks l u.1 h.1)
    | inl closed ↦ elim (Option-cases (outcome_of gamma timeout_sec now b (gamma slug))) [
      | inl nothing ↦
          rw
            (
              poll-due b slug ks 0 l closed
                  (ap (λ r. r.0) (settle-none b slug (gamma slug) l nothing)),
              settle-none b slug (gamma slug) l nothing,
              closed,
              nothing,
            )
            (zero_more (poll_markets-Appends ks l u.1 h.1))
      | inr (outcome, known) ↦
          let s = settle-Settles b slug (gamma slug) outcome l h.0 known in
          rw (poll-due b slug ks 1 l closed s.returned, closed, known)
            (Appends-cons _ _ l (b, slug, outcome) (settled gamma timeout_sec now ks) s
              (poll_markets-Appends ks (settle timeout_sec now (b, slug) (gamma slug) l).1 u.1
                (others outcome s)))
    ]
  ]
    where
      zero_more :
          {after : Result ℕ × Ledger F} {done : List Settled}
          → Appends after l done
          → Appends (map_ok (λ k. 0 + k) after.0, after.1) l done
      zero_more a = record {
        returned = rw a.returned (ground arith);
        resolutions = a.resolutions;
        trades = a.trades;
        evaluations = a.evaluations;
      }

      others :
          (outcome : Outcome)
          → (s : Settles (settle timeout_sec now (b, slug) (gamma slug) l) l (b, slug, outcome))
          → All (IsUnresolved (settle timeout_sec now (b, slug) (gamma slug) l).1.resolutions) ks
      others outcome s = rw s.resolutions (
          still-IsUnresolved l.resolutions s.resolution ks
            (ground (
              arith,
              ap (λ (t : Settled). t.0) s.for_row,
              ap (λ (t : Settled). t.1) s.for_row,
              u.0,
            ))
            h.1)

  -- A poll appends the rows of `settled` for the list of unresolved markets, and returns their number.
  pub poll-Appends :
      (l : Ledger F)
      → Appends
          (poll gamma timeout_sec now l)
          l
          (settled gamma timeout_sec now (unresolved_buckets l))
  unfolding poll
  poll-Appends l =
      poll_markets-Appends (unresolved_buckets l) l (unresolved_buckets-Unique l)
        (unresolved_buckets-IsUnresolved l)
