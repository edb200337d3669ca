-- ===== src/MarketFeed/Opens.antt =====
-- The opens of the spot feed, and the prices that it has seen.
use i_am_not_a_trader_bot.Prelude.{
  ℕ, Bool, true, not, ◌&&◌, ◌≡◌, refl, ◌⊎◌, inl, inr, some, List, [], ◌∷◌, ◌==◌, All, any, keep,
  Bool-cases, arith,
}
use i_am_not_a_trader_bot.Float.{Float, ◌≼◌, of_ℕ}
use i_am_not_a_trader_bot.MarketFeed.{
  Spot, new_spot, is_bucket, open_in, open_for_bucket, bucket_of, add_open, record_price,
}

module _ {F : Type 0} ⦃fl : Float F⦄ where
  -- Prices with the times at which they came, in order.
  unfoldable pub observe : List (F × F) → Spot F → Spot F
  observe [] s = s
  observe ((price, now) ∷ rest) s = observe rest (record_price price now s)

  -- Some observation in the bucket has the price.
  abbrev pub WasSeen : List (F × F) → ℕ → F → Type 0
  WasSeen [] bucket price = ⊥
  WasSeen ((p, t) ∷ rest) bucket price =
      ((bucket_of t ≡ bucket) × (p ≡ price)) ⊎ WasSeen rest bucket price

  -- The first observation came no later than the bucket's start.
  abbrev pub StartedBy : List (F × F) → ℕ → Type 0
  StartedBy [] bucket = ⊥
  StartedBy ((p, t) ∷ rest) bucket = (t ≼ of_ℕ bucket) ≡ true

  module _ (Seen : ℕ → F → Type 0) (first : F) where
    abbrev IsHonest : ℕ × F → Type 0
    IsHonest (bucket, price) = ((first ≼ of_ℕ bucket) ≡ true) × Seen bucket price

    add_open-IsHonest :
        (bucket : ℕ) (price : F) (opens : List (ℕ × F))
        → Seen bucket price
        → All IsHonest opens
        → All IsHonest (add_open bucket first price opens)
    add_open-IsHonest bucket price opens seen h =
        elim (Bool-cases (not (any (is_bucket bucket) opens) && first ≼ of_ℕ bucket)) [
          | inl fresh ↦ rw fresh ((ground arith, seen), h)
          | inr known ↦ rw known h
        ]

    keep-IsHonest :
        (p : ℕ × F → Bool) (opens : List (ℕ × F)) → All IsHonest opens → All IsHonest (keep p opens)
    keep-IsHonest p [] h = tt
    keep-IsHonest p (e ∷ opens) h = elim (Bool-cases (p e)) [
      | inl kept ↦ rw kept (h.0, keep-IsHonest p opens h.1)
      | inr dropped ↦ rw dropped (keep-IsHonest p opens h.1)
    ]

    observe-IsHonest :
        (obs : List (F × F)) (s : Spot F)
        → s.first_seen_ts ≡ some first
        → All (λ o. Seen (bucket_of o.1) o.0) obs
        → All IsHonest s.opens
        → All IsHonest (observe obs s).opens
    unfolding observe record_price
    observe-IsHonest [] s started seen h = h
    observe-IsHonest ((price, now) ∷ obs) s started seen h =
        observe-IsHonest obs (record_price price now s) (rw started refl) seen.1 (
          rw started (
            keep-IsHonest _ (add_open (bucket_of now) first price s.opens)
              (add_open-IsHonest (bucket_of now) price s.opens seen.0 h)))

    open_in-IsHonest :
        (bucket : ℕ) (price : F) (opens : List (ℕ × F))
        → All IsHonest opens
        → open_in bucket opens ≡ some price
        → IsHonest (bucket, price)
    open_in-IsHonest bucket price [] h found = absurd (ground arith)
    open_in-IsHonest bucket price ((b, p) ∷ opens) h found = elim (Bool-cases (b == bucket)) [
      | inl here ↦
          let same_bucket : b ≡ bucket = ground arith in
          let same_price : p ≡ price = ground (arith, here) in rw (← same_bucket, ← same_price) h.0
      | inr later ↦ open_in-IsHonest bucket price opens h.1 (ground arith)
    ]

  every-WasSeen :
      (Seen : ℕ → F → Type 0) (obs : List (F × F))
      → ((b : ℕ) (p : F) → WasSeen obs b p → Seen b p)
      → All (λ o. Seen (bucket_of o.1) o.0) obs
  every-WasSeen Seen [] h = tt
  every-WasSeen Seen ((p, t) ∷ obs) h =
      (h (bucket_of t) p (inl (refl, refl)), every-WasSeen Seen obs (λ b q w. h b q (inr w)))

  -- A feed that starts empty answers `open_for_bucket` only for buckets that did not begin before its
  -- first observation, and with a price that it saw in that bucket.
  pub open_for_bucket-WasSeen :
      (obs : List (F × F)) (bucket : ℕ) (price : F)
      → open_for_bucket bucket (observe obs new_spot) ≡ some price
      → StartedBy obs bucket × WasSeen obs bucket price
  unfolding open_for_bucket observe record_price
  open_for_bucket-WasSeen [] bucket price h = absurd (ground arith)
  open_for_bucket-WasSeen ((p, t) ∷ obs) bucket price h =
      let all = every-WasSeen (WasSeen ((p, t) ∷ obs)) ((p, t) ∷ obs) (λ b q w. w) in
      open_in-IsHonest (WasSeen ((p, t) ∷ obs)) t bucket price _
        (observe-IsHonest (WasSeen ((p, t) ∷ obs)) t obs (record_price p t new_spot) refl all.1 (
          keep-IsHonest (WasSeen ((p, t) ∷ obs)) t _ (add_open (bucket_of t) t p [])
            (add_open-IsHonest (WasSeen ((p, t) ∷ obs)) t (bucket_of t) p [] all.0 tt)))
        h
