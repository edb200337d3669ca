-- ===== src/Prelude/Newlines.antt =====
-- A first occurrence of a line stays the first one when a text loses its last newlines.
use Prim.Native.Char.{Char, code}
use Prim.Native.String.{String}
use mathlib.Core.Path.{◌≡◌, refl, sym, ap, ◌∙◌, subst}
use mathlib.Core.Logic.{inl, inr}
use mathlib.Core.Bool.{Bool, true, false, not, ◌&&◌}
use mathlib.Core.Option.{Option, none, some}
use native.Mathlib.Omega.{arith}
use i_am_not_a_trader_bot.Prelude.Tests.{◌==◌, Bool-cases}
use i_am_not_a_trader_bot.Prelude.Texts.{
  attach, after, cut_here, cut, is_cut, contains, is_newline, kept_end, trim_end,
}
use i_am_not_a_trader_bot.Prelude.Cuts.{grown_rest, grown_cut}

-- A text of newlines.
abbrev pub AllNewlines : String → Type 0
AllNewlines String.[] = Unit
AllNewlines (String.◌∷◌ c s) = (is_newline (code c) ≡ true) × AllNewlines s

-- A text without newlines.
abbrev pub IsLine : String → Type 0
IsLine String.[] = Unit
IsLine (String.◌∷◌ c s) = (is_newline (code c) ≡ false) × IsLine s

-- Has a text no newlines?
abbrev pub is_line : String → Bool
is_line String.[] = true
is_line (String.◌∷◌ c s) = not (is_newline (code c)) && is_line s

pub is_line-IsLine : (s : String) → is_line s ≡ true → IsLine s
is_line-IsLine String.[] h = tt
is_line-IsLine (String.◌∷◌ c s) h = elim (Bool-cases (is_newline (code c))) [
  | inl newline ↦ absurd (ground (arith, h, newline))
  | inr ink ↦ (ink, is_line-IsLine s (ground (arith, h, ink)))
]

-- A line that is a prefix of a text is one without the text's last newlines.
after-newlines :
    (m s nl : String)
    → IsLine m
    → AllNewlines nl
    → after m (attach s nl) ≡ grown_rest nl (after m s)
unfolding after
after-newlines String.[] s nl line ends = refl
after-newlines (String.◌∷◌ c m) String.[] String.[] line ends = refl
after-newlines (String.◌∷◌ c m) String.[] (String.◌∷◌ d nl) line ends =
    ground (arith, line.0, ends.0)
after-newlines (String.◌∷◌ c m) (String.◌∷◌ d s) nl line ends =
    elim (Bool-cases (code c == code d)) [
      | inl same ↦ rw same (after-newlines m s nl line.1 ends)
      | inr other ↦ rw other
    ]

cut_newlines :
    (c : Char) (m nl : String)
    → IsLine (String.◌∷◌ c m)
    → AllNewlines nl
    → cut (String.◌∷◌ c m) nl ≡ none
unfolding cut
cut_newlines c m String.[] line ends = refl
cut_newlines c m (String.◌∷◌ d nl) line ends =
    let other : (code c == code d) ≡ false = ground (arith, line.0, ends.0) in
    rw (other, cut_newlines c m nl line ends.1)

-- A line is found in a text where it is found without the text's last newlines.
pub cut-newlines :
    (c : Char) (m s nl : String)
    → IsLine (String.◌∷◌ c m)
    → AllNewlines nl
    → cut (String.◌∷◌ c m) (attach s nl) ≡ grown_cut nl (cut (String.◌∷◌ c m) s)
unfolding cut
cut-newlines c m String.[] nl line ends = cut_newlines c m nl line ends
cut-newlines c m (String.◌∷◌ d s) nl line ends =
    rw
      (
        after-newlines (String.◌∷◌ c m) (String.◌∷◌ d s) nl line ends,
        cut-newlines c m s nl line ends,
      )
      (cut_here_grown d (after (String.◌∷◌ c m) (String.◌∷◌ d s)) (cut (String.◌∷◌ c m) s))
  where
    cut_here_grown :
        (d : Char) (here : Option String) (later : Option (String × String))
        → cut_here d (grown_rest nl here) (grown_cut nl later)
          ≡ grown_cut nl (cut_here d here later)
    cut_here_grown d (some rest) later = refl
    cut_here_grown d none none = refl
    cut_here_grown d none (some _) = refl

-- A text is what is left of it without its last newlines, and those.
pub trim_end_lem :
    (s : String) → (nl : String) × AllNewlines nl × (s ≡ attach (trim_end is_newline s) nl)
trim_end_lem String.[] = ("", tt, refl)
trim_end_lem (String.◌∷◌ c s) =
    let (nl, ends, same) = trim_end_lem s in
    subst
      (λ (x : String).
        (out : String) × AllNewlines out
        × (String.◌∷◌ c x ≡ attach (kept_end is_newline c (trim_end is_newline s)) out))
      (sym same) (kept c (trim_end is_newline s) nl ends)
  where
    kept :
        (c : Char) (start nl : String)
        → AllNewlines nl
        → (out : String) × AllNewlines out
          × (String.◌∷◌ c (attach start nl) ≡ attach (kept_end is_newline c start) out)
    kept c String.[] nl ends = elim (Bool-cases (is_newline (code c))) [
      | inl dropped ↦ (String.◌∷◌ c nl, (dropped, ends), rw dropped)
      | inr ink ↦ (nl, ends, rw ink)
    ]
    kept c (String.◌∷◌ d start) nl ends = (nl, ends, refl)

pub contains-newlines :
    (c : Char) (m s nl : String)
    → IsLine (String.◌∷◌ c m)
    → AllNewlines nl
    → contains (String.◌∷◌ c m) (attach s nl) ≡ contains (String.◌∷◌ c m) s
contains-newlines c m s nl line ends =
    ap is_cut (cut-newlines c m s nl line ends) ∙ same (cut (String.◌∷◌ c m) s)
  where
    same : (x : Option (String × String)) → is_cut (grown_cut nl x) ≡ is_cut x
    same none = refl
    same (some _) = refl
