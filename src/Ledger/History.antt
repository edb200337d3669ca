-- ===== src/Ledger/History.antt =====
-- The ledger's discipline: rows are only appended, and of a written row only an open trade's price,
-- fee, status and order id may change.
use mathlib.Core.List.{append-nil, append_assoc}
use i_am_not_a_trader_bot.Prelude.{
  true, inl, inr, ◌⊎◌, ◌≡◌, refl, sym, ◌∙◌, List, [], ◌∷◌, ◌++◌, map,
}
use i_am_not_a_trader_bot.Ledger.Rows.{
  EvaluationRow, Resolution, RiskRow, VariantRow, Ledger, Trade, is_opened,
}

-- `ys` is `xs` with rows appended.
abbrev pub Appended {ℓ} : {A : Type ℓ} → List A → List A → Type ℓ
Appended {A} xs ys = (zs : List A) × (ys ≡ xs ++ zs)

pub Appended-refl {ℓ} : {A : Type ℓ} (xs : List A) → Appended xs xs
Appended-refl xs = ([], sym (append-nil xs))

pub Appended-trans {ℓ} :
    {A : Type ℓ} (xs ys : List A) {zs : List A} → Appended xs ys → Appended ys zs → Appended xs zs
Appended-trans xs ys (us, p) (vs, q) = (us ++ vs, rw (q, p) (append_assoc xs us vs))

module _ {F : Type 0} where
  -- A trade's row may change only while it is open, and never in what it was inserted with.
  pub record Advances (t t' : Trade F) : Type 0 where
    pub same_id : t'.id ≡ t.id
    pub same_ts : t'.ts ≡ t.ts
    pub same_bucket : t'.bucket_ts ≡ t.bucket_ts
    pub same_variant : t'.variant_id ≡ t.variant_id
    pub same_market : t'.market_slug ≡ t.market_slug
    pub same_side : t'.side ≡ t.side
    pub same_mode : t'.mode ≡ t.mode
    pub same_intended : t'.intended_price ≡ t.intended_price
    pub same_stake : t'.stake_usd ≡ t.stake_usd
    pub frozen : (is_opened t.status ≡ true) ⊎ (t' ≡ t)

  pub Advances-refl : (t : Trade F) → Advances t t
  Advances-refl t = record {
    same_id = refl;
    same_ts = refl;
    same_bucket = refl;
    same_variant = refl;
    same_market = refl;
    same_side = refl;
    same_mode = refl;
    same_intended = refl;
    same_stake = refl;
    frozen = inr refl;
  }

  frozen_trans :
      {t u v : Trade F}
      → (is_opened t.status ≡ true) ⊎ (u ≡ t)
      → (is_opened u.status ≡ true) ⊎ (v ≡ u)
      → (is_opened t.status ≡ true) ⊎ (v ≡ t)
  frozen_trans (inl was_open) q = inl was_open
  frozen_trans (inr same) (inl still_open) = inl (rw (sym same) still_open)
  frozen_trans (inr same) (inr kept) = inr (kept ∙ same)

  pub Advances-trans : {t u v : Trade F} → Advances t u → Advances u v → Advances t v
  Advances-trans {t} {u} {v} p q = record {
    same_id = q.same_id ∙ p.same_id;
    same_ts = q.same_ts ∙ p.same_ts;
    same_bucket = q.same_bucket ∙ p.same_bucket;
    same_variant = q.same_variant ∙ p.same_variant;
    same_market = q.same_market ∙ p.same_market;
    same_side = q.same_side ∙ p.same_side;
    same_mode = q.same_mode ∙ p.same_mode;
    same_intended = q.same_intended ∙ p.same_intended;
    same_stake = q.same_stake ∙ p.same_stake;
    frozen = frozen_trans p.frozen q.frozen;
  }

  -- Row by row, each old trade advances; new ones follow.
  abbrev pub Grows : List (Trade F) → List (Trade F) → Type 0
  Grows [] us = Unit
  Grows (t ∷ ts) [] = ⊥
  Grows (t ∷ ts) (u ∷ us) = Advances t u × Grows ts us

  pub Grows-refl : (ts : List (Trade F)) → Grows ts ts
  Grows-refl [] = tt
  Grows-refl (t ∷ ts) = (Advances-refl t, Grows-refl ts)

  pub Grows-trans : (ts us vs : List (Trade F)) → Grows ts us → Grows us vs → Grows ts vs
  Grows-trans [] us vs p q = tt
  Grows-trans (t ∷ ts) [] vs p q = absurd p
  Grows-trans (t ∷ ts) (u ∷ us) [] p q = absurd q
  Grows-trans (t ∷ ts) (u ∷ us) (v ∷ vs) p q =
      (Advances-trans p.0 q.0, Grows-trans ts us vs p.1 q.1)

  pub Grows-append : (ts us : List (Trade F)) → Grows ts (ts ++ us)
  Grows-append [] us = tt
  Grows-append (t ∷ ts) us = (Advances-refl t, Grows-append ts us)

  pub Grows-map :
      (f : Trade F → Trade F)
      → ((t : Trade F) → Advances t (f t))
      → (ts : List (Trade F)) → Grows ts (map f ts)
  Grows-map f step [] = tt
  Grows-map f step (t ∷ ts) = (step t, Grows-map f step ts)

  pub record Extends (l l' : Ledger F) : Type 0 where
    pub evaluations : Appended l.evaluations l'.evaluations
    pub trades : Grows l.trades l'.trades
    pub resolutions : Appended l.resolutions l'.resolutions
    pub risk_events : Appended l.risk_events l'.risk_events
    pub variants : Appended l.variants l'.variants

  pub Extends-refl : (l : Ledger F) → Extends l l
  Extends-refl l = record {
    evaluations = Appended-refl l.evaluations;
    trades = Grows-refl l.trades;
    resolutions = Appended-refl l.resolutions;
    risk_events = Appended-refl l.risk_events;
    variants = Appended-refl l.variants;
  }

  pub Extends-trans : {l m n : Ledger F} → Extends l m → Extends m n → Extends l n
  Extends-trans {l} {m} {n} p q = record {
    evaluations = Appended-trans l.evaluations m.evaluations p.evaluations q.evaluations;
    trades = Grows-trans l.trades m.trades n.trades p.trades q.trades;
    resolutions = Appended-trans l.resolutions m.resolutions p.resolutions q.resolutions;
    risk_events = Appended-trans l.risk_events m.risk_events p.risk_events q.risk_events;
    variants = Appended-trans l.variants m.variants p.variants q.variants;
  }

  pub Extends-evaluations :
      (l : Ledger F) (xs : List (EvaluationRow F))
      → Appended l.evaluations xs
      → Extends l (record l { evaluations = xs })
  Extends-evaluations l xs h = record {
    evaluations = h;
    trades = Grows-refl l.trades;
    resolutions = Appended-refl l.resolutions;
    risk_events = Appended-refl l.risk_events;
    variants = Appended-refl l.variants;
  }

  pub Extends-trades :
      (l : Ledger F) (xs : List (Trade F))
      → Grows l.trades xs
      → Extends l (record l { trades = xs })
  Extends-trades l xs h = record {
    evaluations = Appended-refl l.evaluations;
    trades = h;
    resolutions = Appended-refl l.resolutions;
    risk_events = Appended-refl l.risk_events;
    variants = Appended-refl l.variants;
  }

  pub Extends-resolutions :
      (l : Ledger F) (xs : List (Resolution F))
      → Appended l.resolutions xs
      → Extends l (record l { resolutions = xs })
  Extends-resolutions l xs h = record {
    evaluations = Appended-refl l.evaluations;
    trades = Grows-refl l.trades;
    resolutions = h;
    risk_events = Appended-refl l.risk_events;
    variants = Appended-refl l.variants;
  }

  pub Extends-risk_events :
      (l : Ledger F) (xs : List (RiskRow F))
      → Appended l.risk_events xs
      → Extends l (record l { risk_events = xs })
  Extends-risk_events l xs h = record {
    evaluations = Appended-refl l.evaluations;
    trades = Grows-refl l.trades;
    resolutions = Appended-refl l.resolutions;
    risk_events = h;
    variants = Appended-refl l.variants;
  }

  pub Extends-variants :
      (l : Ledger F) (xs : List (VariantRow F))
      → Appended l.variants xs
      → Extends l (record l { variants = xs })
  Extends-variants l xs h = record {
    evaluations = Appended-refl l.evaluations;
    trades = Grows-refl l.trades;
    resolutions = Appended-refl l.resolutions;
    risk_events = Appended-refl l.risk_events;
    variants = h;
  }
