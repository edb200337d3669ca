-- ===== src/Ledger/Admin.antt =====
-- Writes that only add risk events and variant events: those of the control plane and of the
-- evolution.
use i_am_not_a_trader_bot.Prelude.{String, Option, ◌≡◌, refl, ◌∙◌}
use i_am_not_a_trader_bot.Prelude.Py.{Exec, ◌>>=◌}
use i_am_not_a_trader_bot.Prelude.Keeps.{Keeps->>=}
use i_am_not_a_trader_bot.Config.{Params}
use i_am_not_a_trader_bot.Float.{Float}
use i_am_not_a_trader_bot.Ledger.Rows.{Ledger, Mode, RiskEvent, VariantEvent}
use i_am_not_a_trader_bot.Ledger.Writes.{record_risk_event, record_variant_event}
use i_am_not_a_trader_bot.Ledger.Reads.{realized_pnl_rows}
use i_am_not_a_trader_bot.Ledger.Sound.{
  IsSound, IsSound-refl, IsSound-trans, record_risk_event-KeepsSound,
  record_variant_event-KeepsSound,
}

module _ {F : Type 0} where
  pub record IsAdmin (l l' : Ledger F) : Type 0 where
    pub sound : IsSound l l'
    pub same_trades : l'.trades ≡ l.trades
    pub same_resolutions : l'.resolutions ≡ l.resolutions
    pub same_evaluations : l'.evaluations ≡ l.evaluations

  pub IsAdmin-refl : (l : Ledger F) → IsAdmin l l
  IsAdmin-refl l = record {
    sound = IsSound-refl l;
    same_trades = refl;
    same_resolutions = refl;
    same_evaluations = refl;
  }

  pub IsAdmin-trans : (l m n : Ledger F) → IsAdmin l m → IsAdmin m n → IsAdmin l n
  IsAdmin-trans l m n p q = record {
    sound = IsSound-trans l m n p.sound q.sound;
    same_trades = q.same_trades ∙ p.same_trades;
    same_resolutions = q.same_resolutions ∙ p.same_resolutions;
    same_evaluations = q.same_evaluations ∙ p.same_evaluations;
  }

  pub record_risk_event-IsAdmin :
      (ts : F) (event : RiskEvent F) (l : Ledger F) → IsAdmin l (record_risk_event ts event l).1
  unfolding record_risk_event
  record_risk_event-IsAdmin ts event l = record {
    sound = record_risk_event-KeepsSound ts event l;
    same_trades = refl;
    same_resolutions = refl;
    same_evaluations = refl;
  }

  pub record_variant_event-IsAdmin :
      (ts : F) (id : String) (event : VariantEvent) (params : Params F) (parent : Option String)
      (l : Ledger F)
      → IsAdmin l (record_variant_event ts id event params parent l).1
  unfolding record_variant_event
  record_variant_event-IsAdmin ts id event params parent l = record {
    sound = record_variant_event-KeepsSound ts id event params parent l;
    same_trades = refl;
    same_resolutions = refl;
    same_evaluations = refl;
  }

-- A call on a larger state, of which `view` is the ledger, that makes only such writes.
module _ {F S : Type 0} (view : S → Ledger F) where
  pub record IsClerical {A : Type 0} (m : Exec S A) : Type 0 where
    pub at : (s : S) → IsAdmin (view s) (view (m s).1)

module _ {F S : Type 0} {view : S → Ledger F} {A B : Type 0} {m : Exec S A} {f : A → Exec S B} where
  pub IsClerical->>= :
      IsClerical view m → ((a : A) → IsClerical view (f a)) → IsClerical view (m >>= f)
  IsClerical->>= h k = record {
    at =
        Keeps->>= (λ s t. IsAdmin (view s) (view t)) m f
          (λ s t u. IsAdmin-trans (view s) (view t) (view u)) h.at (λ a. (k a).at);
  }

-- The realized trades are the same after such writes.
pub realized_pnl_rows-IsAdmin :
    {F : Type 0} ⦃fl : Float F⦄ (l l' : Ledger F) (id : String) (mode : Mode)
    → IsAdmin l l'
    → realized_pnl_rows id mode l' ≡ realized_pnl_rows id mode l
unfolding realized_pnl_rows
realized_pnl_rows-IsAdmin l l' id mode h = rw (h.same_trades, h.same_resolutions)
