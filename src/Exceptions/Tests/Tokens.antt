-- ===== src/Exceptions/Tests/Tokens.antt =====
-- Tokens and the comments that carry them, at concrete texts.
use klaudiush.Prelude.{◌≡◌, refl, true, []}
use klaudiush.Prelude.Bytes.{codes, lacks}
use klaudiush.Prelude.Bytes.Text.{trim_space}
use klaudiush.Exceptions.Types.{Token}
use klaudiush.Exceptions.Token.{ok, parse_token, parse_token_from_comment}
use klaudiush.Exceptions.Token.Shape.{Spells, bare, parse_token_sound, parse_token_complete, colon}
use klaudiush.Exceptions.Tests.{token, token_code, parse_token_test}

-- `NOEXC:` is no word that starts with the prefix.
parse_comment_test :
    parse_token_from_comment (codes "EXC") (codes " NOEXC:GIT019 EXC:GIT022:Hot+fix x") ≡ ok token
unfolding token_code
parse_comment_test = refl

parse_token_sound_example : Spells (codes "EXC") (trim_space (codes " EXC:GIT022:Hot+fix ")) token
parse_token_sound_example =
    parse_token_sound (codes "EXC") (codes " EXC:GIT022:Hot+fix ") token parse_token_test

abbrev bare_token : Token
bare_token = record {
  prefix = codes "EXC";
  error_code = codes "SEC001";
  reason = [];
  raw = codes "EXC:SEC001";
}

bare_token-Spells : Spells (codes "EXC") (trim_space (codes "EXC:SEC001")) bare_token
unfolding token_code
bare_token-Spells = bare refl refl refl refl refl

no_colon : lacks colon (codes "EXC") ≡ true
unfolding codes
no_colon = refl

parse_token_complete_example : parse_token (codes "EXC") (codes "EXC:SEC001") ≡ ok bare_token
parse_token_complete_example =
    parse_token_complete (codes "EXC") (codes "EXC:SEC001") bare_token no_colon bare_token-Spells
