-- ===== src/Prelude/Texts.antt =====
-- Python's operations on texts, which are lists of ASCII characters.
use Prim.Native.Char.{Char, code}
use Prim.Native.Nat.{ℕ, zero, suc}
use Prim.Native.String.{String}
use mathlib.Core.Bool.{Bool, true, false, ◌&&◌, ◌||◌}
use mathlib.Core.Option.{Option, none, some}
use i_am_not_a_trader_bot.Prelude.Tests.{leb, ◌==◌, if◌then◌else◌}

-- `s + t`
abbrev pub attach : String → String → String
attach String.[] t = t
attach (String.◌∷◌ c s) t = String.◌∷◌ c (attach s t)

-- What comes after a prefix.
unfoldable pub after : String → String → Option String
after String.[] s = some s
after (String.◌∷◌ c p) String.[] = none
after (String.◌∷◌ c p) (String.◌∷◌ d s) = if code c == code d then after p s else none

abbrev pub cut_here : Char → Option String → Option (String × String) → Option (String × String)
cut_here c (some rest) later = some ("", rest)
cut_here c none none = none
cut_here c none (some (before, rest)) = some (String.◌∷◌ c before, rest)

-- The text before the first occurrence of a mark, and what follows it. The mark is not empty.
unfoldable pub cut : String → String → Option (String × String)
unfolding after
cut mark String.[] = none
cut mark (String.◌∷◌ c s) = cut_here c (after mark (String.◌∷◌ c s)) (cut mark s)

abbrev pub is_cut : Option (String × String) → Bool
is_cut none = false
is_cut (some _) = true

-- `mark in s`
abbrev pub contains : String → String → Bool
contains mark s = is_cut (cut mark s)

-- `len(s)`
abbrev pub size : String → ℕ
size String.[] = zero
size (String.◌∷◌ c s) = suc (size s)

abbrev pub is_newline : ℕ → Bool
is_newline c = c == b'\n'

-- The ASCII characters that `str.strip` drops: tab to carriage return, file separator to space.
abbrev pub is_space : ℕ → Bool
is_space c = leb 9 c && leb c 13 || leb 28 c && leb c 32

module _ (drops : ℕ → Bool) where
  abbrev pub trim_start : String → String
  trim_start String.[] = ""
  trim_start (String.◌∷◌ c s) =
      let rest = trim_start s in if drops (code c) then rest else String.◌∷◌ c s

  abbrev pub kept_end : Char → String → String
  kept_end c String.[] = if drops (code c) then "" else String.◌∷◌ c ""
  kept_end c (String.◌∷◌ d s) = String.◌∷◌ c (String.◌∷◌ d s)

  abbrev pub trim_end : String → String
  trim_end String.[] = ""
  trim_end (String.◌∷◌ c s) = kept_end c (trim_end s)
