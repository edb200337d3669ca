-- ===== src/Config/Rules.antt =====
-- engine/config.py: `rules_hash`, of the rules section of STRATEGY.md. SHA-256 is a parameter.
use i_am_not_a_trader_bot.Prelude.{String, Option, none, some}
use i_am_not_a_trader_bot.Prelude.Result.{Result, ok, err, config_error}
use i_am_not_a_trader_bot.Prelude.Texts.{cut}

abbrev pub begin_mark : String
begin_mark = "<!-- rules:begin -->"

abbrev pub end_mark : String
end_mark = "<!-- rules:end -->"

abbrev pub up_to : Option (String × String) → Option String
up_to none = none
up_to (some (text, _)) = some text

abbrev pub block_in : Option (String × String) → Option String
block_in none = none
block_in (some (_, text)) = up_to (cut end_mark text)

-- RULES_BLOCK_RE: from the first begin mark to the first end mark behind it. Where no end mark
-- follows the first begin mark, none follows a later one.
unfoldable pub rules_block : String → Option String
rules_block text = block_in (cut begin_mark text)

abbrev pub hash_of : (String → String) → Option String → Result String
hash_of sha256 none = err config_error
hash_of sha256 (some block) = ok (sha256 block)

unfoldable pub rules_hash : (String → String) → String → Result String
rules_hash sha256 text = hash_of sha256 (rules_block text)
