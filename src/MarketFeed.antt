-- ===== src/MarketFeed.antt =====
-- engine/market_feed.py: the books, the spot price with its opens, and the snapshot of a tick. What
-- an HTTP request brings is given; the capture of raw payloads to a file is left out.

pub mod Staleness
pub mod Opens
use i_am_not_a_trader_bot.Prelude.{
  ℕ, ◌+◌, ◌*◌, ltb, ◌==◌, String, Bool, true, false, not, ◌||◌, ◌&&◌, Option, none, some, List, [],
  ◌∷◌, any, keep, str_eq, if◌then◌else◌,
}
use i_am_not_a_trader_bot.Prelude.Result.{Result, ok, err}
use i_am_not_a_trader_bot.Prelude.Py.{Exec, pure, lift, gets, ◌>>=◌, ◌>>◌}
use i_am_not_a_trader_bot.Float.{Float, ◌≺◌, ◌≼◌, ◌⊖◌, ◌⊗◌, of_ℕ, nought}
use i_am_not_a_trader_bot.Signals.{
  FeatureSnapshot, MarketInfo, BookTop, bucket_sec, aged, compute_snapshot,
}
use i_am_not_a_trader_bot.Config.{get}

-- `d[key] = value`
abbrev pub put {ℓ} : {V : Type ℓ} → String → V → List (String × V) → List (String × V)
put key value [] = (key, value) ∷ []
put key value ((k, v) ∷ rest) =
    let after = put key value rest in if str_eq k key then (k, value) ∷ rest else (k, v) ∷ after

-- `d.get(key, False)`
abbrev pub or_false : Option Bool → Bool
or_false none = false
or_false (some b) = b

-- The price and the size of a level.
abbrev pub Level : Type 0 → Type 0
Level F = F × F

-- What one request for a book brings: the bids and the asks, or nothing where the request raises
-- or the payload is malformed.
abbrev pub BookReply : Type 0 → Type 0
BookReply F = Option (List (Level F) × List (Level F))

-- The state of an OrderBookClient: three dicts by token.
pub record Books (F : Type 0) : Type 0 where
  pub tops : List (String × BookTop F)
  pub last_update_ts : List (String × F)
  pub fetch_failed : List (String × Bool)

-- The state of a SpotFeed.
pub record Spot (F : Type 0) : Type 0 where
  pub last_price : Option F
  pub last_ts : Option F
  pub opens : List (ℕ × F)
  pub first_seen_ts : Option F

abbrev pub new_spot : {F : Type 0} → Spot F
new_spot = record { last_price = none; last_ts = none; opens = []; first_seen_ts = none }

-- The state of a MarketState with its clients; `market` is the one entry of `_markets`.
pub record Feeds (F : Type 0) : Type 0 where
  pub books : Books F
  pub spot : Spot F
  pub market : Option (ℕ × MarketInfo F)

-- What the requests of one snapshot bring: Gamma's market, the hosts' prices, and the two books.
pub record Replies (F : Type 0) : Type 0 where
  pub gamma : Result (Option (MarketInfo F))
  pub hosts : List (Option F)
  pub up_book : BookReply F
  pub down_book : BookReply F

module _ {F : Type 0} where
  abbrev pub is_bucket : ℕ → ℕ × F → Bool
  is_bucket bucket (b, _) = b == bucket

  abbrev pub open_in : ℕ → List (ℕ × F) → Option F
  open_in bucket [] = none
  open_in bucket ((b, price) ∷ rest) = if b == bucket then some price else open_in bucket rest

  unfoldable pub open_for_bucket : ℕ → Spot F → Option F
  open_for_bucket bucket s = open_in bucket s.opens

  abbrev pub or_now : Option F → F → F
  or_now none now = now
  or_now (some t) now = t

  -- The first host that answers.
  abbrev pub first_answer : List (Option F) → Option F
  first_answer [] = none
  first_answer (none ∷ rest) = first_answer rest
  first_answer (some price ∷ rest) = some price

module _ {F : Type 0} ⦃fl : Float F⦄ where
  -- `max(parsed, key=price)` or `min`: the first of the best levels.
  abbrev pub better : Bool → Level F → Level F → Level F
  better true (p, n) (q, m) = if p ≺ q then (q, m) else (p, n)
  better false (p, n) (q, m) = if q ≺ p then (q, m) else (p, n)

  abbrev pub best_level : Bool → Level F → List (Level F) → Level F
  best_level want_max best [] = best
  best_level want_max best (level ∷ rest) = best_level want_max (better want_max best level) rest

  -- `_parse_side`: the best price, and the notional that rests there.
  unfoldable pub parse_side : Bool → List (Level F) → Option F × F
  parse_side want_max [] = (none, nought)
  parse_side want_max (level ∷ rest) =
      let (price, size) = best_level want_max level rest in (some price, price ⊗ size)

  -- `OrderBookClient.fetch`; its result is not used.
  unfoldable pub fetch_book : String → BookReply F → F → Books F → Books F
  fetch_book token_id none now b = record b { fetch_failed = put token_id true b.fetch_failed }
  fetch_book token_id (some (bids, asks)) now b =
      let (best_bid, bid_depth) = parse_side true bids in
      let (best_ask, ask_depth) = parse_side false asks in
      record {
        tops =
            put token_id
              (record {
                best_bid = best_bid;
                best_ask = best_ask;
                bid_depth_usd = bid_depth;
                ask_depth_usd = ask_depth;
                ts = now;
              })
              b.tops;
        last_update_ts = put token_id now b.last_update_ts;
        fetch_failed = put token_id false b.fetch_failed;
      }

  abbrev pub has_failed : String → Books F → Bool
  has_failed token_id b = or_false (get token_id b.fetch_failed)

  -- `OrderBookClient.is_stale`
  unfoldable pub is_stale : String → F → F → Books F → Bool
  is_stale token_id now threshold b =
      has_failed token_id b || aged now threshold (get token_id b.last_update_ts)

  abbrev pub bucket_of : F → ℕ
  bucket_of now = fl.floor_div now bucket_sec * bucket_sec

  -- The open of a new bucket, if the feed was there by its start.
  abbrev pub add_open : ℕ → F → F → List (ℕ × F) → List (ℕ × F)
  add_open bucket first_seen price opens =
      if not (any (is_bucket bucket) opens) && first_seen ≼ of_ℕ bucket
      then (bucket, price) ∷ opens
      else opens

  -- `SpotFeed._record`
  unfoldable pub record_price : F → F → Spot F → Spot F
  record_price price now s =
      let first_seen = or_now s.first_seen_ts now in
      let bucket = bucket_of now in
      record {
        last_price = some price;
        last_ts = some now;
        opens =
            keep (λ (e : ℕ × F). not (ltb (e.0 + 2 * bucket_sec) bucket))
              (add_open bucket first_seen price s.opens);
        first_seen_ts = some first_seen;
      }

  abbrev pub record_answer : Option F → F → Spot F → Spot F
  record_answer none now s = s
  record_answer (some price) now s = record_price price now s

  -- `SpotFeed.fetch`
  abbrev pub fetch_spot : List (Option F) → F → Spot F → Spot F
  fetch_spot hosts now s = record_answer (first_answer hosts) now s

  -- `MarketState.market_for`: the market is cached for its bucket, and asked for again until it is
  -- there.
  abbrev pub resolved : ℕ → Result (Option (MarketInfo F)) → Exec (Feeds F) (Option (MarketInfo F))
  resolved bucket (err e) s = (err e, s)
  resolved bucket (ok none) s = (ok none, s)
  resolved bucket (ok (some market)) s =
      (ok (some market), record s { market = some (bucket, market) })

  unfoldable pub market_for :
      Result (Option (MarketInfo F)) → F → Exec (Feeds F) (Option (MarketInfo F))
  market_for gamma now s = elim s.market [
    | none ↦ resolved (bucket_of now) gamma s
    | some (bucket, market) ↦
        if bucket == bucket_of now then (ok (some market), s) else resolved (bucket_of now) gamma s
  ]

  abbrev pub fetch_all : Replies F → MarketInfo F → F → Feeds F → Feeds F
  fetch_all replies market now s = record s {
    spot = fetch_spot replies.hosts now s.spot;
    books =
        fetch_book market.token_id_down replies.down_book now
          (fetch_book market.token_id_up replies.up_book now s.books);
  }

  abbrev pub marked : Bool → FeatureSnapshot F → FeatureSnapshot F
  marked true snap = record snap { quote_stale = true }
  marked false snap = snap

  -- The snapshot of the state after the requests.
  abbrev pub assemble : F → MarketInfo F → F → Feeds F → FeatureSnapshot F
  assemble staleness_sec market now s =
      marked
        (is_stale market.token_id_up now staleness_sec s.books
          || is_stale market.token_id_down now staleness_sec s.books)
        (compute_snapshot market (get market.token_id_up s.books.tops)
          (get market.token_id_down s.books.tops) (open_for_bucket (bucket_of now) s.spot)
          s.spot.last_price s.spot.last_ts now staleness_sec)

  abbrev pub observed :
      F → Replies F → F → Option (MarketInfo F) → Exec (Feeds F) (Option (FeatureSnapshot F))
  observed staleness_sec replies now none s = (ok none, s)
  observed staleness_sec replies now (some market) s =
      let after = fetch_all replies market now s in
      (ok (some (assemble staleness_sec market now after)), after)

  -- `MarketState.snapshot`
  unfoldable pub snapshot : F → Replies F → F → Exec (Feeds F) (Option (FeatureSnapshot F))
  snapshot staleness_sec replies now = do
    market ← market_for replies.gamma now
    observed staleness_sec replies now market
