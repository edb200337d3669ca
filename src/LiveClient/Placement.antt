-- ===== src/LiveClient/Placement.antt =====
-- What `LiveExecutor.execute` leaves: the order at the venue, its row, and the order it tracks.
use i_am_not_a_trader_bot.Prelude.{
  ℕ, suc, String, true, ◌≡◌, refl, ◌⊎◌, inl, inr, some, List, [], ◌∷◌, map, count_if, Bool-cases,
  arith, ◌==◌, str_eq,
}
use i_am_not_a_trader_bot.Prelude.Result.{Error, ok, err}
use i_am_not_a_trader_bot.Float.{Float, divide, abs, ◌⊖◌, ◌≺◌}
use i_am_not_a_trader_bot.Ledger.{Trade, is_opened, is_open_row, update_row}
use i_am_not_a_trader_bot.Risk.{Approved}
use i_am_not_a_trader_bot.LiveClient.{
  Venue, LiveState, OpenOrder, Orders, RestingOrder, tracked, track_order,
}

module _ {F : Type 0} where
  -- The row of an order that rests at the venue.
  pub record Rests (trade_id : ℕ) (order_id : String) (t : Trade F) : Type 0 where
    pub same_id : t.id ≡ trade_id
    pub is_open : is_opened t.status ≡ true
    pub same_order : t.order_id ≡ some order_id

  abbrev pub HasRow : (Trade F → Type 0) → List (Trade F) → Type 0
  HasRow P [] = ⊥
  HasRow P (t ∷ ts) = P t ⊎ HasRow P ts

  -- The one open row of an id gets the order's id.
  pub attached :
      (k : ℕ) (order_id : String) (n : ℕ) (ts : List (Trade F))
      → count_if (is_open_row k) ts ≡ suc n
      → HasRow
          (Rests k order_id)
          (map (update_row (is_open_row k) (λ t. record t { order_id = some order_id })) ts)
  attached k order_id n [] h = absurd (omega (arith, h))
  attached k order_id n (t ∷ ts) h = elim (Bool-cases (is_open_row k t)) [
    | inl hit ↦
        inl (rw hit (record { same_id = ground arith; is_open = ground arith; same_order = refl }))
    | inr miss ↦ inr (attached k order_id n ts (ground arith))
  ]

  pub tracked-track_order :
      (k : ℕ) (o : OpenOrder F) (os : Orders F) → tracked k (track_order k o os) ≡ some o
  tracked-track_order k o [] = ground arith
  tracked-track_order k o ((j, p) ∷ os) = elim (Bool-cases (j == k)) [
    | inl same ↦ rw same (rw same refl)
    | inr other ↦ rw other (rw other (tracked-track_order k o os))
  ]

module _ {F V : Type 0} where
  -- The order that is tracked for a trade is this one of its open row, and has the approval's terms.
  pub record IsTracked (a : Approved F) (token_id order_id : String) (k : ℕ) (s : LiveState F V)
      : Type 0 where
    pub order : OpenOrder F
    pub is_tracked : tracked k s.orders ≡ some order
    pub has_row : HasRow (Rests k order_id) s.ledger.trades
    pub same_order : order.order_id ≡ order_id
    pub same_token : order.token_id ≡ token_id
    pub same_price : order.intended_price ≡ a.limit_price
    pub same_stake : order.stake_usd ≡ a.stake_usd
    pub same_bucket : order.bucket_ts ≡ a.bucket_ts

module _ {F : Type 0} ⦃fl : Float F⦄ where
  -- An order of this id, for this token, at this price to a tenth of a cent, is on a list.
  abbrev pub IsListed : String → F → String → List (RestingOrder F) → Type 0
  IsListed token_id price order_id [] = ⊥
  IsListed token_id price order_id (o ∷ os) =
      (o.order_id ≡ order_id)
        × (str_eq o.token_id token_id ≡ true)
        × ((abs (o.price ⊖ price) ≺ fl.decimal 1 3) ≡ true)
      ⊎ IsListed token_id price order_id os

module _ {F V : Type 0} ⦃fl : Float F⦄ where
  -- The post raised, and the list of open orders that the venue then answered has the order.
  pub record IsFound (venue : Venue F V) (token_id : String) (price shares : F) (v : V)
      (order_id : String) : Type 0 where
    pub raised : Error
    pub listed : List (RestingOrder F)
    pub refused : (venue.post_order token_id price shares v).0 ≡ err raised
    pub answered :
        (venue.get_open_orders (venue.post_order token_id price shares v).1).0 ≡ ok listed
    pub is_listed : IsListed token_id price order_id listed

  -- The id that the venue gave to a post, or that it listed after one that raised.
  abbrev pub IsPlaced : Venue F V → String → F → F → V → String → Type 0
  IsPlaced venue token_id price shares v order_id =
      ((venue.post_order token_id price shares v).0 ≡ ok order_id)
      ⊎ IsFound venue token_id price shares v order_id

  -- An entry: the venue's token, an order for the stake's shares of it at the limit, and its track.
  pub record Enters (venue : Venue F V) (a : Approved F) (k : ℕ) (s s' : LiveState F V)
      : Type 0 where
    pub token_id : String
    pub shares : F
    pub order_id : String
    pub is_token : (venue.resolve_token_id a.market_slug a.side s.venue).0 ≡ ok token_id
    pub is_size : divide a.stake_usd a.limit_price ≡ ok shares
    pub is_placed :
        IsPlaced venue token_id a.limit_price shares
          (venue.resolve_token_id a.market_slug a.side s.venue).1
          order_id
    pub is_tracked : IsTracked a token_id order_id k s'
