-- ===== src/MarketFeed/Staleness.antt =====
-- A book whose request fails makes the snapshot stale at once.
use i_am_not_a_trader_bot.Prelude.{
  String, Bool, true, false, ◌||◌, ◌≡◌, ◌∙◌, ap, refl, ◌⊎◌, inl, inr, none, some, List, [], ◌∷◌,
  Bool-cases, arith, str_eq, eq_iff,
}
use i_am_not_a_trader_bot.Prelude.Result.{ok}
use i_am_not_a_trader_bot.Float.{Float}
use i_am_not_a_trader_bot.Signals.{FeatureSnapshot, MarketInfo, compute_snapshot}
use i_am_not_a_trader_bot.Config.{get}
use i_am_not_a_trader_bot.MarketFeed.{
  put, Books, BookReply, Feeds, Replies, fetch_book, or_false, has_failed, is_stale, market_for,
  fetch_all, marked, assemble, open_for_bucket, bucket_of, snapshot,
}

get-put {ℓ} :
    {V : Type ℓ} (key : String) (value : V) (d : List (String × V))
    → get key (put key value d) ≡ some value
get-put key value [] = ground (arith, eq_iff key key)
get-put key value ((k, v) ∷ d) = elim (Bool-cases (str_eq k key)) [
  | inl same ↦ rw same (rw same refl)
  | inr other ↦ rw other (rw other (get-put key value d))
]

get-put_other {ℓ} :
    {V : Type ℓ} (key other : String) (value : V) (d : List (String × V))
    → str_eq other key ≡ false
    → get key (put other value d) ≡ get key d
get-put_other key other value [] h = rw h refl
get-put_other key other value ((k, v) ∷ d) h = elim (Bool-cases (str_eq k other)) [
  | inl same ↦
      let elsewhere : str_eq k key ≡ false =
        ground (arith, h, same, eq_iff k other, eq_iff k key, eq_iff other key) in
      rw same (rw elsewhere refl)
  | inr apart ↦ rw apart (elim (Bool-cases (str_eq k key)) [
    | inl here ↦ rw here refl
    | inr elsewhere ↦ rw elsewhere (get-put_other key other value d h)
  ])
]

module _ {F : Type 0} ⦃fl : Float F⦄ where
  failed_now :
      (token_id : String) (now : F) (b : Books F)
      → has_failed token_id (fetch_book token_id none now b) ≡ true
  unfolding fetch_book
  failed_now token_id now b = ap or_false (get-put token_id true b.fetch_failed)

  fails_still :
      (token_id other : String) (reply : BookReply F) (now : F) (b : Books F)
      → str_eq other token_id ≡ false
      → has_failed token_id b ≡ true
      → has_failed token_id (fetch_book other reply now b) ≡ true
  unfolding fetch_book
  fails_still token_id other none now b apart h =
      ap or_false (get-put_other token_id other true b.fetch_failed apart) ∙ h
  fails_still token_id other (some (bids, asks)) now b apart h =
      ap or_false (get-put_other token_id other false b.fetch_failed apart) ∙ h

  either-IsStale :
      (market : MarketInfo F) (now staleness_sec : F) (b : Books F)
      → (has_failed market.token_id_up b ≡ true) ⊎ (has_failed market.token_id_down b ≡ true)
      → (is_stale market.token_id_up now staleness_sec b
          || is_stale market.token_id_down now staleness_sec b)
        ≡ true
  unfolding is_stale
  either-IsStale market now staleness_sec b (inl up_failed) = ground (arith, up_failed)
  either-IsStale market now staleness_sec b (inr down_failed) = ground (arith, down_failed)

  marked_stale :
      (b : Bool) (snap : FeatureSnapshot F) → b ≡ true → (marked b snap).quote_stale ≡ true
  marked_stale true snap h = refl
  marked_stale false snap h = absurd (ground arith)

  assemble-IsStale :
      (staleness_sec : F) (market : MarketInfo F) (now : F) (s : Feeds F)
      → (has_failed market.token_id_up s.books ≡ true)
        ⊎ (has_failed market.token_id_down s.books ≡ true)
      → (assemble staleness_sec market now s).quote_stale ≡ true
  assemble-IsStale staleness_sec market now s failed =
      marked_stale
        (is_stale market.token_id_up now staleness_sec s.books
          || is_stale market.token_id_down now staleness_sec s.books)
        (compute_snapshot market (get market.token_id_up s.books.tops)
          (get market.token_id_down s.books.tops) (open_for_bucket (bucket_of now) s.spot)
          s.spot.last_price s.spot.last_ts now staleness_sec)
        (either-IsStale market now staleness_sec s.books failed)

  -- The failure of either request is remembered when both are done.
  remembers :
      (replies : Replies F) (market : MarketInfo F) (now : F) (s : Feeds F)
      → str_eq market.token_id_down market.token_id_up ≡ false
      → (replies.up_book ≡ none) ⊎ (replies.down_book ≡ none)
      → let after = (fetch_all replies market now s).books in
        (has_failed market.token_id_up after ≡ true)
        ⊎ (has_failed market.token_id_down after ≡ true)
  remembers replies market now s apart (inl up_failed) =
      let first = fetch_book market.token_id_up replies.up_book now s.books in
      let failed : has_failed market.token_id_up first ≡ true =
        rw up_failed (failed_now market.token_id_up now s.books) in
      inl (
        fails_still market.token_id_up market.token_id_down replies.down_book now first apart
          failed)
  remembers replies market now s apart (inr down_failed) =
      let first = fetch_book market.token_id_up replies.up_book now s.books in
      inr (rw down_failed (failed_now market.token_id_down now first))

  -- Where there is a market with two different tokens, and the request for one of its books fails
  -- or brings a malformed payload, the snapshot of this tick is there and its quotes are stale,
  -- whatever the last good book is.
  pub snapshot-IsStale :
      (staleness_sec : F) (replies : Replies F) (market : MarketInfo F) (now : F) (s : Feeds F)
      → (market_for replies.gamma now s).0 ≡ ok (some market)
      → str_eq market.token_id_down market.token_id_up ≡ false
      → (replies.up_book ≡ none) ⊎ (replies.down_book ≡ none)
      → (snap : FeatureSnapshot F) × ((snapshot staleness_sec replies now s).0 ≡ ok (some snap))
        × (snap.quote_stale ≡ true)
  unfolding snapshot
  snapshot-IsStale staleness_sec replies market now s there apart failed =
      let after = (market_for replies.gamma now s).1 in
      rw there (
        assemble staleness_sec market now (fetch_all replies market now after),
        refl,
        assemble-IsStale staleness_sec market now (fetch_all replies market now after)
            (remembers replies market now after apart failed),
      )
