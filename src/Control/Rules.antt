-- ===== src/Control/Rules.antt =====
-- What an append does to STRATEGY.md: its rules section stays, and its block follows.
use i_am_not_a_trader_bot.Prelude.{
  String, ◌≡◌, refl, sym, ap, ◌∙◌, Option, none, some, arith, Option-cases, inl, inr,
}
use i_am_not_a_trader_bot.Prelude.Texts.{attach, cut, contains, is_newline, trim_end}
use i_am_not_a_trader_bot.Prelude.Cuts.{grown_cut, rest_of, cut-attach}
use i_am_not_a_trader_bot.Prelude.Newlines.{
  AllNewlines, IsLine, is_line-IsLine, cut-newlines, contains-newlines, trim_end_lem,
}
use i_am_not_a_trader_bot.Config.Rules.{begin_mark, end_mark, up_to, block_in, rules_block}
use i_am_not_a_trader_bot.Control.Lessons.{grown, lessons_heading}

-- A text that is found is found with what follows, which grows.
module _ (t : String) where
  up_to_grows :
      (text block : String)
      → up_to (cut end_mark text) ≡ some block
      → up_to (cut end_mark (attach text t)) ≡ some block
  up_to_grows text block h = elim (Option-cases (cut end_mark text)) [
    | inl nowhere ↦ absurd (ground (arith, h, nowhere))
    | inr (found, there) ↦ rw (cut-attach end_mark text t found there) (sym (ap up_to there) ∙ h)
  ]

  block_in_grows :
      (begins : Option (String × String)) (block : String)
      → block_in begins ≡ some block
      → block_in (grown_cut t begins) ≡ some block
  block_in_grows none block h = h
  block_in_grows (some (_, text)) block h = up_to_grows text block h

  -- A rules section is that of a longer text.
  rules_block-attach :
      (text block : String)
      → rules_block text ≡ some block
      → rules_block (attach text t) ≡ some block
  unfolding rules_block
  rules_block-attach text block h = elim (Option-cases (cut begin_mark text)) [
    | inl nowhere ↦ absurd (ground (arith, h, nowhere))
    | inr (found, there) ↦
        rw (cut-attach begin_mark text t found there)
          (block_in_grows (some found) block (sym (ap block_in there) ∙ h))
  ]

end_mark-IsLine : IsLine end_mark
end_mark-IsLine = is_line-IsLine end_mark refl

begin_mark-IsLine : IsLine begin_mark
begin_mark-IsLine = is_line-IsLine begin_mark refl

heading-IsLine : IsLine lessons_heading
heading-IsLine = is_line-IsLine lessons_heading refl

-- The last newlines are no part of a rules section.
module _ (nl : String) (ends : AllNewlines nl) where
  up_to_newlines : (x : Option (String × String)) → up_to (grown_cut nl x) ≡ up_to x
  up_to_newlines none = refl
  up_to_newlines (some _) = refl

  cut-end_mark : (text : String) → cut end_mark (attach text nl) ≡ grown_cut nl (cut end_mark text)
  cut-end_mark text = cut-newlines _ _ text nl end_mark-IsLine ends

  block_in_newlines :
      (begins : Option (String × String)) → block_in (grown_cut nl begins) ≡ block_in begins
  block_in_newlines none = refl
  block_in_newlines (some (_, text)) =
      ap up_to (cut-end_mark text) ∙ up_to_newlines (cut end_mark text)

  rules_block-newlines : (text : String) → rules_block (attach text nl) ≡ rules_block text
  unfolding rules_block
  rules_block-newlines text =
      ap block_in (cut-newlines _ _ text nl begin_mark-IsLine ends)
      ∙ block_in_newlines (cut begin_mark text)

-- A text with a block at its end has the same rules section.
pub rules_block-grown :
    (text block rules : String)
    → rules_block text ≡ some rules
    → rules_block (grown text block) ≡ some rules
rules_block-grown text block rules h =
    let (nl, ends, same) = trim_end_lem text in
    let trimmed = trim_end is_newline text in
    rules_block-attach (attach "\n\n" block) trimmed rules
      (sym (rules_block-newlines nl ends trimmed) ∙ ap rules_block (sym same) ∙ h)

-- Below the first end mark of a text with a block at its end: what was there, and the block.
module _ (text below block : String) where
  pub record IsBelow : Type 0 where
    pub before : String
    pub rest : String
    pub found : cut end_mark (grown text block) ≡ some (before, attach rest (attach "\n\n" block))
    pub same_heading : contains lessons_heading rest ≡ contains lessons_heading below

  pub grown-IsBelow : (before : String) → cut end_mark text ≡ some (before, below) → IsBelow
  grown-IsBelow before there =
      let (nl, ends, same) = trim_end_lem text in
      let trimmed = trim_end is_newline text in
      let cut_at : grown_cut nl (cut end_mark trimmed) ≡ some (before, below) =
        sym (cut-end_mark nl ends trimmed) ∙ ap (cut end_mark) (sym same) ∙ there in
      elim (Option-cases (cut end_mark trimmed)) [
        | inl nowhere ↦ absurd (ground (arith, cut_at, nowhere))
        | inr (found, at) ↦
            let same_rest = ap rest_of (sym (ap (grown_cut nl) at) ∙ cut_at) in
            record {
              before = found.0;
              rest = found.1;
              found = cut-attach end_mark trimmed (attach "\n\n" block) found at;
              same_heading =
                  sym (contains-newlines _ _ found.1 nl heading-IsLine ends)
                  ∙ ap (contains lessons_heading) same_rest;
            }
      ]
