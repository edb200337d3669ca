-- ===== src/Evolution/State.antt =====
-- engine/evolution.py: the files and the ledger that the EvolutionManager works on.
use i_am_not_a_trader_bot.Prelude.{
  ℕ, String, Bool, Option, some, List, [], ◌∷◌, str_eq, if◌then◌else◌,
}
use i_am_not_a_trader_bot.Prelude.Result.{Result, ok, err}
use i_am_not_a_trader_bot.Prelude.Py.{Exec}
use i_am_not_a_trader_bot.Float.{Float}
use i_am_not_a_trader_bot.Config.{Config, Variant}
use i_am_not_a_trader_bot.Config.Validation.{load}
use i_am_not_a_trader_bot.Ledger.{Ledger}

-- A JSON value of a notice, which an agent may edit; null is the absence of a value.
pub data NoticeValue (F : Type 0) : Type 0 where
  number : F → NoticeValue F
  boolean : Bool → NoticeValue F
  text : String → NoticeValue F
  -- an empty list or object, and one that is not empty
  empty_json other_json : NoticeValue F

-- The fields of a notice that the code reads; its case and its diff are texts for the operator.
pub record Notice (F : Type 0) : Type 0 where
  pub delivery_ack_ts : Option (NoticeValue F)
  pub veto_deadline_ts : Option (NoticeValue F)
  pub created_ts : Option (NoticeValue F)
  pub proposed_allocation_usd : Option (NoticeValue F)

-- The content of a notice file: no JSON, JSON that is no object, or a notice.
pub data NoticeFile (F : Type 0) : Type 0 where
  malformed not_object : NoticeFile F
  notice : Notice F → NoticeFile F

-- The configuration file (none where its fields or their types are wrong), the ledger, the notice
-- files by variant, the prose files by variant, and `reviewed_n` of evolution-state.json.
pub record Files (F : Type 0) : Type 0 where
  pub config_file : Option (Config F)
  pub ledger : Ledger F
  pub notices : List (String × NoticeFile F)
  pub appends : List (String × String)
  pub reviewed_n : List (String × ℕ)

-- `d[key] = value`, and a file that is written.
abbrev pub put {ℓ} : {V : Type ℓ} → String → V → List (String × V) → List (String × V)
put key value [] = (key, value) ∷ []
put key value ((k, v) ∷ rest) =
    let after = put key value rest in if str_eq k key then (k, value) ∷ rest else (k, v) ∷ after

module _ {F : Type 0} where
  abbrev pub on_ledger : {A : Type 0} → Exec (Ledger F) A → Exec (Files F) A
  on_ledger m s = let (r, l) = m s.ledger in (r, record s { ledger = l })

  -- One object of `raw["variants"]` is changed in place: the one that a search by id finds.
  abbrev pub change_variant : String → (Variant F → Variant F) → List (Variant F) → List (Variant F)
  change_variant id f [] = []
  change_variant id f (v ∷ vs) =
      let rest = change_variant id f vs in if str_eq v.id id then f v ∷ vs else v ∷ rest

module _ {F : Type 0} ⦃fl : Float F⦄ where
  -- The original bytes come back where the new document does not load.
  abbrev pub kept_or_restored :
      Option (Config F) → Files F → Result (Config F) → Result (Unit {0}) × Files F
  kept_or_restored original written (ok _) = (ok tt, written)
  kept_or_restored original written (err e) = (err e, record written { config_file = original })

  abbrev pub write_raw_config : Config F → Exec (Files F) (Unit {0})
  write_raw_config raw s =
      kept_or_restored s.config_file (record s { config_file = some raw }) (load (some raw))
