-- ===== src/Executor/Markets.antt =====
-- `_unresolved_buckets`: which markets a poll asks for.
use i_am_not_a_trader_bot.Prelude.{
  Bool, true, false, not, ◌&&◌, ◌||◌, ◌≡◌, refl, ◌∙◌, inl, inr, List, [], ◌∷◌, any, All, arith, ltb,
  eq_iff, Bool-cases,
}
use i_am_not_a_trader_bot.Ledger.{Ledger, Trade, Resolution, is_resolution}
use i_am_not_a_trader_bot.Ledger.Unique.{Unique}
use i_am_not_a_trader_bot.Executor.{
  Market, same_key, add_distinct, insert_by_bucket, sort_by_bucket, unresolved_from,
  unresolved_buckets,
}

same_key_comm : (j k : Market) → same_key j k ≡ same_key k j
same_key_comm (b, s) (c, t) = ground (arith, eq_iff s t, eq_iff t s)

any-insert :
    (p : Market → Bool) (k : Market) (js : List Market)
    → any p (insert_by_bucket k js) ≡ (p k || any p js)
any-insert p k [] = ground arith
any-insert p k (j ∷ js) = elim (Bool-cases (ltb j.0 k.0)) [
  | inl before ↦ rw before (ground (arith, any-insert p k js))
  | inr after ↦ rw after refl
]

any-sort : (p : Market → Bool) (ks : List Market) → any p (sort_by_bucket ks) ≡ any p ks
any-sort p [] = refl
any-sort p (k ∷ ks) = any-insert p k (sort_by_bucket ks) ∙ ground (arith, any-sort p ks)

insert-Unique :
    (k : Market) (js : List Market)
    → any (same_key k) js ≡ false
    → Unique same_key js
    → Unique same_key (insert_by_bucket k js)
insert-Unique k [] fresh u = (fresh, tt)
insert-Unique k (j ∷ js) fresh u = elim (Bool-cases (ltb j.0 k.0)) [
  | inl before ↦ rw before (
    ground (arith, any-insert (same_key j) k js, same_key_comm j k),
    insert-Unique k js (ground arith) u.1,
  )
  | inr after ↦ rw after (fresh, u)
]

sort-Unique : (ks : List Market) → Unique same_key ks → Unique same_key (sort_by_bucket ks)
sort-Unique [] u = tt
sort-Unique (k ∷ ks) u =
    insert-Unique k (sort_by_bucket ks) (any-sort (same_key k) ks ∙ u.0) (sort-Unique ks u.1)

add_distinct-Unique :
    (k : Market) (ks : List Market) → Unique same_key ks → Unique same_key (add_distinct k ks)
add_distinct-Unique k ks u = elim (Bool-cases (any (same_key k) ks)) [
  | inl there ↦ rw there u
  | inr fresh ↦ rw fresh (fresh, u)
]

pub insert-All :
    (P : Market → Type 0) (k : Market) (js : List Market)
    → P k
    → All P js
    → All P (insert_by_bucket k js)
insert-All P k [] p h = (p, tt)
insert-All P k (j ∷ js) p h = elim (Bool-cases (ltb j.0 k.0)) [
  | inl before ↦ rw before (h.0, insert-All P k js p h.1)
  | inr after ↦ rw after (p, h)
]

sort-All : (P : Market → Type 0) (ks : List Market) → All P ks → All P (sort_by_bucket ks)
sort-All P [] h = tt
sort-All P (k ∷ ks) h = insert-All P k (sort_by_bucket ks) h.0 (sort-All P ks h.1)

-- Texts that compare equal are compared alike with a third.
same_key_trans : (j k i : Market) → same_key j k ≡ true → same_key i j ≡ same_key i k
same_key_trans (b, s) (c, t) (d, u) h = ground (arith, eq_iff s t, eq_iff u s, eq_iff u t)

any-add_distinct :
    (i k : Market) (ks : List Market)
    → any (same_key i) (add_distinct k ks) ≡ (same_key i k || any (same_key i) ks)
any-add_distinct i k ks = elim (Bool-cases (any (same_key k) ks)) [
  | inr fresh ↦ rw fresh refl
  | inl there ↦ rw there (absorbed ks there)
]
  where
    absorbed :
        (js : List Market)
        → any (same_key k) js ≡ true
        → any (same_key i) js ≡ (same_key i k || any (same_key i) js)
    absorbed [] h = absurd (ground arith)
    absorbed (j ∷ js) h = elim (Bool-cases (same_key k j)) [
      | inl same ↦ ground (arith, same_key_trans k j i same)
      | inr other ↦ ground (arith, absorbed js)
    ]

module _ {F : Type 0} where
  -- No resolution row has the market.
  abbrev pub IsUnresolved : List (Resolution F) → Market → Type 0
  IsUnresolved rs (bucket, slug) = any (is_resolution bucket slug) rs ≡ false

  abbrev pub market_of : Trade F → Market
  market_of t = (t.bucket_ts, t.market_slug)

  from-Unique :
      (rs : List (Resolution F)) (ts : List (Trade F)) → Unique same_key (unresolved_from rs ts)
  from-Unique rs [] = tt
  from-Unique rs (t ∷ ts) = elim (Bool-cases (any (is_resolution t.bucket_ts t.market_slug) rs)) [
    | inl resolved ↦ rw resolved (from-Unique rs ts)
    | inr open_market ↦
        rw open_market
          (add_distinct-Unique (market_of t) (unresolved_from rs ts) (from-Unique rs ts))
  ]

  from-IsUnresolved :
      (rs : List (Resolution F)) (ts : List (Trade F))
      → All (IsUnresolved rs) (unresolved_from rs ts)
  from-IsUnresolved rs [] = tt
  from-IsUnresolved rs (t ∷ ts) =
      elim (Bool-cases (any (is_resolution t.bucket_ts t.market_slug) rs)) [
        | inl resolved ↦ rw resolved (from-IsUnresolved rs ts)
        | inr open_market ↦
            rw open_market
              (elim (Bool-cases (any (same_key (market_of t)) (unresolved_from rs ts))) [
                | inl there ↦ rw there (from-IsUnresolved rs ts)
                | inr fresh ↦ rw fresh (open_market, from-IsUnresolved rs ts)
              ])
      ]

  pub unresolved_buckets-Unique : (l : Ledger F) → Unique same_key (unresolved_buckets l)
  unfolding unresolved_buckets
  unresolved_buckets-Unique l =
      sort-Unique (unresolved_from l.resolutions l.trades) (from-Unique l.resolutions l.trades)

  pub unresolved_buckets-IsUnresolved :
      (l : Ledger F) → All (IsUnresolved l.resolutions) (unresolved_buckets l)
  unfolding unresolved_buckets
  unresolved_buckets-IsUnresolved l =
      sort-All (IsUnresolved l.resolutions) (unresolved_from l.resolutions l.trades)
        (from-IsUnresolved l.resolutions l.trades)

  from-any :
      (k : Market) (rs : List (Resolution F)) (ts : List (Trade F))
      → any (same_key k) (unresolved_from rs ts) ≡ (
          any (λ (t : Trade F). same_key k (market_of t)) ts
          && not (any (is_resolution k.0 k.1) rs))
  from-any k rs [] = refl
  from-any k rs (t ∷ ts) = elim (Bool-cases (same_key k (market_of t))) [
    | inl same ↦ ground (
      arith,
      from-any k rs ts,
      any-add_distinct k (market_of t) (unresolved_from rs ts),
      eq_iff k.1 t.market_slug,
    )
    | inr other ↦
        ground (arith, from-any k rs ts, any-add_distinct k (market_of t) (unresolved_from rs ts))
  ]

  -- A market is on the list of a poll exactly where some trade is in it and no resolution row has
  -- it.
  pub any-unresolved_buckets :
      (k : Market) (l : Ledger F)
      → any (same_key k) (unresolved_buckets l) ≡ (
          any (λ (t : Trade F). same_key k (market_of t)) l.trades
          && not (any (is_resolution k.0 k.1) l.resolutions))
  unfolding unresolved_buckets
  any-unresolved_buckets k l =
      any-sort (same_key k) (unresolved_from l.resolutions l.trades)
      ∙ from-any k l.resolutions l.trades
