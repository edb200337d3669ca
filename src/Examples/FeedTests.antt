-- ===== src/Examples/FeedTests.antt =====
-- engine/market_feed.py on concrete inputs.
use i_am_not_a_trader_bot.Prelude.{List, ◌≡◌, refl, true, false, none, some, [], ◌∷◌, inr}
use i_am_not_a_trader_bot.Prelude.Result.{ok}
use i_am_not_a_trader_bot.Float.Micros.{ℤ, micros}
use i_am_not_a_trader_bot.Signals.{FeatureSnapshot, MarketInfo}
use i_am_not_a_trader_bot.MarketFeed.{
  Feeds, Replies, new_spot, market_for, snapshot, open_for_bucket, record_price, parse_side,
}
use i_am_not_a_trader_bot.MarketFeed.Staleness.{snapshot-IsStale}
use i_am_not_a_trader_bot.MarketFeed.Opens.{observe, StartedBy, WasSeen, open_for_bucket-WasSeen}
use i_am_not_a_trader_bot.Examples.{now, cents, seconds}

abbrev market : MarketInfo ℤ
market = record {
  slug = "btc-updown-5m-1200";
  condition_id = "0xc";
  token_id_up = "token-up";
  token_id_down = "token-down";
  end_ts = seconds 1500;
  fee_rate = cents 2;
  fees_enabled = true;
  active = true;
  closed = false;
}

abbrev boot : Feeds ℤ
boot = record {
  books = record { tops = []; last_update_ts = []; fetch_failed = [] };
  spot = new_spot;
  market = none;
}

-- The second request for a book fails, and so does the first host of the spot price.
abbrev replies : Replies ℤ
replies = record {
  gamma = ok (some market);
  hosts = none ∷ some (seconds 60000) ∷ [];
  up_book = some ((cents 68, seconds 100) ∷ [], (cents 70, seconds 100) ∷ []);
  down_book = none;
}

found : (market_for replies.gamma now boot).0 ≡ ok (some market)
unfolding market_for
found = refl

snapshot-IsStale_example :
    (snap : FeatureSnapshot ℤ) × ((snapshot (seconds 8) replies now boot).0 ≡ ok (some snap))
    × (snap.quote_stale ≡ true)
snapshot-IsStale_example =
    snapshot-IsStale (seconds 8) replies market now boot found refl (inr refl)

best_bid_and_notional :
    parse_side true ((cents 67, seconds 10) ∷ (cents 68, seconds 100) ∷ [])
    ≡ (some (cents 68), seconds 68)
unfolding parse_side
best_bid_and_notional = refl

-- A feed that starts in the middle of bucket 900 has an open for 1200 only.
abbrev prices : List (ℤ × ℤ)
prices =
    (seconds 59990, seconds 1000)
    ∷ (seconds 60000, seconds 1201)
    ∷ (seconds 60040, seconds 1204)
    ∷ []

no_open : open_for_bucket 900 (observe prices new_spot) ≡ none
unfolding open_for_bucket observe record_price
no_open = refl

first_price : open_for_bucket 1200 (observe prices new_spot) ≡ some (seconds 60000)
unfolding open_for_bucket observe record_price
first_price = refl

open_for_bucket-WasSeen_example : StartedBy prices 1200 × WasSeen prices 1200 (seconds 60000)
open_for_bucket-WasSeen_example = open_for_bucket-WasSeen prices 1200 (seconds 60000) first_price
