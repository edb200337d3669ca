-- ===== src/Ledger/Validity.antt =====
-- A ledger's invariant, and that every write keeps it.
use i_am_not_a_trader_bot.Prelude.{
  some, ℕ, ◌≤◌, String, Bool, false, ◌≡◌, refl, Option, List, [], ◌∷◌, map, any, arith, ◌==◌,
  eq_iff, inl, inr, Bool-cases,
}
use i_am_not_a_trader_bot.Ledger.Rows.{
  is_terminal, TradeStatus, mode_eq, Outcome, Mode, empty_ledger, Ledger, Trade, Resolution,
  next_id,
}
use i_am_not_a_trader_bot.Ledger.Writes.{
  is_open_row, record_trade, update_row, attach_order_id, record_resolution, update_trade_fill,
  is_entry, is_resolution,
}
use i_am_not_a_trader_bot.Ledger.Unique.{Unique, Unique-append, Unique-map}
use i_am_not_a_trader_bot.Prelude.Py.{Exec}
use i_am_not_a_trader_bot.Signals.{Side}

mode_eq_comm : (m n : Mode) → mode_eq m n ≡ mode_eq n m
mode_eq_comm Mode.shadow Mode.shadow = refl
mode_eq_comm Mode.shadow Mode.live = refl
mode_eq_comm Mode.live Mode.shadow = refl
mode_eq_comm Mode.live Mode.live = refl

module _ {F : Type 0} where
  abbrev pub same_entry : Trade F → Trade F → Bool
  same_entry t u = is_entry t.bucket_ts t.variant_id t.mode u

  abbrev pub same_trade_id : Trade F → Trade F → Bool
  same_trade_id t u = t.id == u.id

  abbrev pub same_market : Resolution F → Resolution F → Bool
  same_market r q = is_resolution r.bucket_ts r.market_slug q

  pub record IsValid (l : Ledger F) : Type 0 where
    pub entries : Unique same_entry l.trades
    pub ids : Unique same_trade_id l.trades
    pub markets : Unique same_market l.resolutions

  same_entry_comm : (t u : Trade F) → same_entry t u ≡ same_entry u t
  same_entry_comm t u = ground (
    arith,
    eq_iff t.variant_id u.variant_id,
    eq_iff u.variant_id t.variant_id,
    mode_eq_comm t.mode u.mode,
  )

  same_market_comm : (r q : Resolution F) → same_market r q ≡ same_market q r
  same_market_comm r q =
      ground (arith, eq_iff r.market_slug q.market_slug, eq_iff q.market_slug r.market_slug)

  -- The next id is no row's.
  pub next_id_fresh :
      (n : ℕ) (ts : List (Trade F))
      → next_id (λ (t : Trade F). t.id) ts ≤ n
      → any (λ (t : Trade F). n == t.id) ts ≡ false
  next_id_fresh n [] h = refl
  next_id_fresh n (t ∷ ts) h = ground (arith, next_id_fresh n ts)

  pub empty_ledger-IsValid : IsValid empty_ledger
  empty_ledger-IsValid = record { entries = tt; ids = tt; markets = tt }

  -- A write that keeps the invariant, whether it returns or raises.
  abbrev pub KeepsValid : {A : Type 0} → Exec (Ledger F) A → Type 0
  KeepsValid m = (l : Ledger F) → IsValid l → IsValid (m l).1

  pub record_trade-KeepsValid :
      (ts : F) (b : ℕ) (v slug : String) (side : Side) (mode : Mode) (intended stake : F)
      (status : TradeStatus) (price : Option F) (fee : F)
      → KeepsValid (record_trade ts b v slug side mode intended stake status price fee)
  unfolding record_trade
  record_trade-KeepsValid ts b v slug side mode intended stake status price fee l h =
      elim (Bool-cases (any (is_entry b v mode) l.trades)) [
        | inl there ↦ rw there h
        | inr fresh ↦ rw fresh (record {
          entries = Unique-append same_entry same_entry_comm l.trades _ h.entries fresh;
          ids =
              Unique-append same_trade_id (λ t u. ground arith) l.trades _ h.ids
                (next_id_fresh _ l.trades (omega arith));
          markets = h.markets;
        })
      ]

  pub record_resolution-KeepsValid :
      (b : ℕ) (slug : String) (outcome : Outcome) (ts : Option F)
      → KeepsValid (record_resolution b slug outcome ts)
  unfolding record_resolution
  record_resolution-KeepsValid b slug outcome ts l h =
      elim (Bool-cases (any (is_resolution b slug) l.resolutions)) [
        | inl there ↦ rw there h
        | inr fresh ↦ rw fresh (record {
          entries = h.entries;
          ids = h.ids;
          markets = Unique-append same_market same_market_comm l.resolutions _ h.markets fresh;
        })
      ]

  -- An update that leaves a row's identity alone.
  pub record IsInPlace (f : Trade F → Trade F) : Type 0 where
    pub same_id : (t : Trade F) → (f t).id ≡ t.id
    pub same_bucket : (t : Trade F) → (f t).bucket_ts ≡ t.bucket_ts
    pub same_variant : (t : Trade F) → (f t).variant_id ≡ t.variant_id
    pub same_mode : (t : Trade F) → (f t).mode ≡ t.mode

  update_row-IsInPlace :
      (p : Trade F → Bool) (f : Trade F → Trade F) → IsInPlace f → IsInPlace (update_row p f)
  update_row-IsInPlace p f s = record {
    same_id = λ t. ground (arith, s.same_id t);
    same_bucket = λ t. ground (arith, s.same_bucket t);
    same_variant = λ t. ground (arith, s.same_variant t);
    same_mode = λ t. ground (arith, s.same_mode t);
  }

  map-IsInPlace :
      (f : Trade F → Trade F)
      → IsInPlace f
      → (l : Ledger F) → IsValid l
      → IsValid (record l { trades = map f l.trades })
  map-IsInPlace f s l h = record {
    entries =
        Unique-map same_entry f
          (λ t u. rw (
            s.same_bucket t,
            s.same_variant t,
            s.same_mode t,
            s.same_bucket u,
            s.same_variant u,
            s.same_mode u,
          ))
          (λ t u. rw (s.same_bucket u, s.same_variant u, s.same_mode u)) l.trades h.entries;
    ids =
        Unique-map same_trade_id f (λ t u. rw (s.same_id t, s.same_id u)) (λ t u. rw (s.same_id u))
          l.trades h.ids;
    markets = h.markets;
  }

  pub update_trade_fill-KeepsValid :
      (trade_id : ℕ) (price : Option F) (fee : F) (status : TradeStatus)
      → KeepsValid (update_trade_fill trade_id price fee status)
  unfolding update_trade_fill
  update_trade_fill-KeepsValid trade_id price fee status l h =
      elim (Bool-cases (is_terminal status)) [
        | inr opened_again ↦ rw opened_again h
        | inl terminal ↦ rw terminal (
            map-IsInPlace _
              (update_row-IsInPlace (is_open_row trade_id)
                (λ t. record t { filled_price = price; fee_usd = fee; status = status })
                (record {
                  same_id = λ t. refl;
                  same_bucket = λ t. refl;
                  same_variant = λ t. refl;
                  same_mode = λ t. refl;
                }))
              l h)
      ]

  pub attach_order_id-KeepsValid :
      (trade_id : ℕ) (order_id : String) → KeepsValid (attach_order_id trade_id order_id)
  unfolding attach_order_id
  attach_order_id-KeepsValid trade_id order_id l h =
      map-IsInPlace _
        (update_row-IsInPlace (is_open_row trade_id) (λ t. record t { order_id = some order_id })
          (record {
            same_id = λ t. refl;
            same_bucket = λ t. refl;
            same_variant = λ t. refl;
            same_mode = λ t. refl;
          }))
        l h
