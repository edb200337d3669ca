-- ===== src/Evolution/Ids.antt =====
-- The ids of challengers: `<parent>-c<n>`. A text is the list of its characters; ids are in ASCII.
use Prim.Native.Char.{Char, code}
use i_am_not_a_trader_bot.Prelude.{
  ℕ, zero, suc, ◌+◌, ◌-◌, ◌*◌, ◌/◌, ◌%◌, Bool, ◌&&◌, Option, none, some, List, [], ◌∷◌, String, leb,
  ltb, if◌then◌else◌,
}
use i_am_not_a_trader_bot.Prelude.Texts.{attach, after}
use i_am_not_a_trader_bot.Config.{Variant}

-- `\d`
abbrev pub is_digit : ℕ → Bool
is_digit c = leb b'0' c && leb c b'9'

abbrev pub digit : ℕ → Char
digit zero = "0"
digit (suc zero) = "1"
digit (suc (suc zero)) = "2"
digit (suc (suc (suc zero))) = "3"
digit (suc (suc (suc (suc zero)))) = "4"
digit (suc (suc (suc (suc (suc zero))))) = "5"
digit (suc (suc (suc (suc (suc (suc zero)))))) = "6"
digit (suc (suc (suc (suc (suc (suc (suc zero))))))) = "7"
digit (suc (suc (suc (suc (suc (suc (suc (suc zero)))))))) = "8"
digit (suc (suc (suc (suc (suc (suc (suc (suc (suc _))))))))) = "9"

-- The digits of n, before a text; each round drops one digit.
unfoldable pub digits : ℕ → ℕ → String → String
digits zero n out = out
digits (suc fuel) n out =
    let more = digits fuel (n / 10) (String.◌∷◌ (digit (n % 10)) out) in
    if ltb n 10 then String.◌∷◌ (digit n) out else more

-- `f"{n}"`
unfoldable pub print : ℕ → String
unfolding digits
print n = digits (suc n) n ""

-- `int(s)` of a text of digits, behind the digits read before it.
unfoldable pub read : String → ℕ → Option ℕ
read String.[] n = some n
read (String.◌∷◌ c s) n = if is_digit (code c) then read s (n * 10 + (code c - b'0')) else none

-- `(\d+)$`
unfoldable pub number_of : String → Option ℕ
unfolding read
number_of String.[] = none
number_of (String.◌∷◌ c s) = read (String.◌∷◌ c s) 0

abbrev pub then_number : Option String → Option ℕ
then_number none = none
then_number (some s) = number_of s

-- `-c(\d+)$`
abbrev pub suffix_number : String → Option ℕ
suffix_number s = then_number (after "-c" s)

abbrev pub then_suffix : Option String → Option ℕ
then_suffix none = none
then_suffix (some s) = suffix_number s

-- The number_of of a challenger of this parent: `^<parent>-c(\d+)$`.
unfoldable pub challenger_number : String → String → Option ℕ
unfolding after number_of read
challenger_number parent id = then_suffix (after parent id)

abbrev pub grown : Char → Option ℕ → Option String → Option String
grown c _ (some p) = some (String.◌∷◌ c p)
grown c (some _) none = some (String.◌∷◌ c String.[])
grown c none none = none

-- CHALLENGER_ID_RE, `^(?P<parent>.+)-c(?P<n>\d+)$`: the longest parent that fits.
unfoldable pub parent_of : String → Option String
unfolding after number_of read
parent_of String.[] = none
parent_of (String.◌∷◌ c s) = grown c (suffix_number s) (parent_of s)

module _ {F : Type 0} where
  -- `max(taken, default=0)`
  abbrev pub largest_taken : String → List (Variant F) → ℕ
  largest_taken parent [] = 0
  largest_taken parent (v ∷ vs) =
      let rest = largest_taken parent vs in
      elim (challenger_number parent v.id) [ none ↦ rest | some n ↦ if ltb rest n then n else rest ]

  unfoldable pub next_challenger_id : List (Variant F) → String → String
  unfolding print digits
  next_challenger_id variants parent =
      attach parent (attach "-c" (print (largest_taken parent variants + 1)))
