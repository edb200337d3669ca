-- ===== src/Evolution/Notices.antt =====
-- engine/evolution.py: what `_advance_pending` reads in a notice, a file that an agent may edit.
use i_am_not_a_trader_bot.Prelude.{
  String, Bool, true, false, not, ◌&&◌, Option, none, some, str_eq, if◌then◌else◌,
}
use i_am_not_a_trader_bot.Prelude.Result.{Result, ok, err, map_ok, type_error, value_error}
use i_am_not_a_trader_bot.Float.{Float, ◌≺◌, ◌≼◌, ◌≐◌, nought, of_ℕ}
use i_am_not_a_trader_bot.Evolution.State.{
  NoticeValue, number, boolean, text, empty_json, other_json,
}

module _ {F : Type 0} ⦃fl : Float F⦄ where
  -- VETO_WINDOW_SEC
  abbrev pub veto_window_sec : F
  veto_window_sec = of_ℕ 86400

  -- DEFAULT_ALLOCATION_USD
  abbrev pub default_allocation_usd : F
  default_allocation_usd = of_ℕ 100

  abbrev pub of_boolean : Bool → F
  of_boolean true = of_ℕ 1
  of_boolean false = nought

  -- What an order comparison with a float takes; the rest raises TypeError.
  abbrev pub comparable : NoticeValue F → Result F
  comparable (number x) = ok x
  comparable (boolean b) = ok (of_boolean b)
  comparable (text t) = err type_error
  comparable empty_json = err type_error
  comparable other_json = err type_error

  -- `created_ts is None or created_ts <= ack_ts`
  abbrev pub created_before : Option (NoticeValue F) → F → Result Bool
  created_before none ack = ok true
  created_before (some created) ack = map_ok (λ at. at ≼ ack) (comparable created)

  abbrev pub if_valid : F → Bool → Option F
  if_valid ack true = some ack
  if_valid ack false = none

  -- `ack_valid`, with the time where it holds.
  unfoldable pub valid_ack : F → Option (NoticeValue F) → NoticeValue F → Result (Option F)
  valid_ack now created (number ack) =
      if fl.is_finite ack
      then map_ok (λ older. if_valid ack (older && ack ≼ now)) (created_before created ack)
      else ok none
  valid_ack now created (boolean b) = ok none
  valid_ack now created (text t) = ok none
  valid_ack now created empty_json = ok none
  valid_ack now created other_json = ok none

  -- `not (now < veto_deadline_ts)`
  unfoldable pub has_passed : F → NoticeValue F → Result Bool
  has_passed now deadline = map_ok (λ at. not (now ≺ at)) (comparable deadline)

  -- `float(value or DEFAULT_ALLOCATION_USD)`; `parse_float` is `float` of a text.
  module _ (parse_float : String → Option F) where
    abbrev pub parsed : Option F → Result F
    parsed none = err value_error
    parsed (some x) = ok x

    unfoldable pub allocation_of : Option (NoticeValue F) → Result F
    allocation_of none = ok default_allocation_usd
    allocation_of (some (number x)) = ok (if x ≐ nought then default_allocation_usd else x)
    allocation_of (some (boolean b)) = ok (if b then of_boolean b else default_allocation_usd)
    allocation_of (some (text t)) =
        if str_eq t "" then ok default_allocation_usd else parsed (parse_float t)
    allocation_of (some empty_json) = ok default_allocation_usd
    allocation_of (some other_json) = err type_error
