-- ===== src/Signals.antt =====
-- engine/signals.py: the frozen snapshot that every rule-set sees, and its assembly; with the two
-- records of engine/market_feed.py that it is assembled from.
use i_am_not_a_trader_bot.Prelude.{
  ℕ, ◌*◌, String, Bool, true, false, not, ◌||◌, Option, none, some, if◌then◌else◌,
}
use i_am_not_a_trader_bot.Float.{Float, ◌≺◌, ◌≼◌, ◌⊖◌, nought}

pub data Side : Type 0 where
  up down : Side

abbrev pub is_up : Side → Bool
is_up up = true
is_up down = false

pub record FeatureSnapshot (F : Type 0) : Type 0 where
  pub bucket_ts : ℕ
  pub market_slug : String
  pub seconds_to_close : F
  pub btc_open : Option F
  pub btc_last : Option F
  pub up_best_bid : Option F
  pub up_best_ask : Option F
  pub down_best_bid : Option F
  pub down_best_ask : Option F
  pub up_bid_depth_usd : F
  pub up_ask_depth_usd : F
  pub down_bid_depth_usd : F
  pub down_ask_depth_usd : F
  pub fee_rate : F
  pub fees_enabled : Bool
  pub quote_stale : Bool
  pub spot_stale : Bool

pub record MarketInfo (F : Type 0) : Type 0 where
  pub slug : String
  pub condition_id : String
  pub token_id_up : String
  pub token_id_down : String
  pub end_ts : F
  pub fee_rate : F
  pub fees_enabled : Bool
  pub active : Bool
  pub closed : Bool

pub record BookTop (F : Type 0) : Type 0 where
  pub best_bid : Option F
  pub best_ask : Option F
  pub bid_depth_usd : F
  pub ask_depth_usd : F
  pub ts : F

abbrev pub bucket_sec : ℕ
bucket_sec = 300

module _ {F : Type 0} ⦃fl : Float F⦄ where
  -- `a - b` where either may be None
  abbrev pub difference : Option F → Option F → Option F
  difference (some a) (some b) = some (a ⊖ b)
  difference none _ = none
  difference (some a) none = none

  unfoldable pub btc_move_usd : FeatureSnapshot F → Option F
  btc_move_usd s = difference s.btc_last s.btc_open

  unfoldable pub impulse_available : FeatureSnapshot F → Bool
  impulse_available s = elim (btc_move_usd s) [ none ↦ false | some _ ↦ not s.spot_stale ]

  abbrev pub best_bid : Side → FeatureSnapshot F → Option F
  best_bid up s = s.up_best_bid
  best_bid down s = s.down_best_bid

  abbrev pub best_ask : Side → FeatureSnapshot F → Option F
  best_ask up s = s.up_best_ask
  best_ask down s = s.down_best_ask

  abbrev pub ask_depth : Side → FeatureSnapshot F → F
  ask_depth up s = s.up_ask_depth_usd
  ask_depth down s = s.down_ask_depth_usd

  unfoldable pub spread : Side → FeatureSnapshot F → Option F
  spread side s = difference (best_ask side s) (best_bid side s)

  -- The guard keeps the divisor above zero, so that `/` cannot raise here.
  unfoldable pub skew_ratio : FeatureSnapshot F → Option F
  skew_ratio s =
      if s.up_bid_depth_usd ≼ nought || s.down_bid_depth_usd ≼ nought
      then none
      else some (fl.div s.up_bid_depth_usd s.down_bid_depth_usd)

  -- The inner function `aged` of `compute_snapshot`.
  abbrev pub aged : F → F → Option F → Bool
  aged now staleness_sec none = true
  aged now staleness_sec (some ts) = staleness_sec ≺ (now ⊖ ts)

  abbrev book_ts : Option (BookTop F) → Option F
  book_ts none = none
  book_ts (some b) = some b.ts

  abbrev bid_of : Option (BookTop F) → Option F
  bid_of none = none
  bid_of (some b) = b.best_bid

  abbrev ask_of : Option (BookTop F) → Option F
  ask_of none = none
  ask_of (some b) = b.best_ask

  abbrev bid_depth_of : Option (BookTop F) → F
  bid_depth_of none = nought
  bid_depth_of (some b) = b.bid_depth_usd

  abbrev ask_depth_of : Option (BookTop F) → F
  ask_depth_of none = nought
  ask_depth_of (some b) = b.ask_depth_usd

  -- `spot_last is None or aged(spot_ts)`
  abbrev spot_is_stale : Option F → Option F → F → F → Bool
  spot_is_stale none spot_ts now staleness_sec = true
  spot_is_stale (some _) spot_ts now staleness_sec = aged now staleness_sec spot_ts

  unfoldable pub compute_snapshot :
      MarketInfo F
      → Option (BookTop F)
      → Option (BookTop F)
      → Option F
      → Option F
      → Option F
      → F
      → F
      → FeatureSnapshot F
  compute_snapshot market up_book down_book spot_open spot_last spot_ts now staleness_sec = record {
    bucket_ts = fl.floor_div now bucket_sec * bucket_sec;
    market_slug = market.slug;
    seconds_to_close = market.end_ts ⊖ now;
    btc_open = spot_open;
    btc_last = spot_last;
    up_best_bid = bid_of up_book;
    up_best_ask = ask_of up_book;
    down_best_bid = bid_of down_book;
    down_best_ask = ask_of down_book;
    up_bid_depth_usd = bid_depth_of up_book;
    up_ask_depth_usd = ask_depth_of up_book;
    down_bid_depth_usd = bid_depth_of down_book;
    down_ask_depth_usd = ask_depth_of down_book;
    fee_rate = market.fee_rate;
    fees_enabled = market.fees_enabled;
    quote_stale =
        aged now staleness_sec (book_ts up_book) || aged now staleness_sec (book_ts down_book);
    spot_stale = spot_is_stale spot_last spot_ts now staleness_sec;
  }
