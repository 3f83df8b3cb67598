-- ===== src/Cli/Pairs.antt =====
-- `key_value_to_str` of ark-cli/src/models/mod.rs.
use Prim.Native.Char.{Char, code}
use ark_rust.Base.{ℕ, String, Bool, ◌&&◌, ◌||◌, List, [], ◌∷◌, leb, ◌==◌, if◌then◌else◌}
use ark_rust.Base.Text.{split}
use ark_rust.Error.{Result, ok, err}
use ark_rust.Cli.Fault.{InlineJsonParseError, invalid_key_val_pair}

-- `char::is_whitespace`
abbrev pub is_whitespace : ℕ → Bool
is_whitespace c =
    leb 9 c && leb c 13
    || c == 32
    || c == 133
    || c == 160
    || c == 5760
    || leb 8192 c && leb c 8202
    || c == 8232
    || c == 8233
    || c == 8239
    || c == 8287
    || c == 12288

unfoldable pub trim_start : String → String
trim_start String.[] = String.[]
trim_start (String.◌∷◌ c s) =
    let rest = trim_start s in if is_whitespace (code c) then rest else String.◌∷◌ c s

-- A character before a text that is trimmed at its end.
abbrev pub before_end : Char → String → String
before_end c String.[] = if is_whitespace (code c) then String.[] else String.◌∷◌ c String.[]
before_end c (String.◌∷◌ d s) = String.◌∷◌ c (String.◌∷◌ d s)

unfoldable pub trim_end : String → String
trim_end String.[] = String.[]
trim_end (String.◌∷◌ c s) = before_end c (trim_end s)

unfoldable pub trim : String → String
unfolding trim_start trim_end
trim s = trim_end (trim_start s)

-- The pairs after one whose pieces are given.
abbrev pub with_pair :
    List String
    → Result InlineJsonParseError (List (String × String))
    → Result InlineJsonParseError (List (String × String))
with_pair (key ∷ value ∷ []) (ok values) = ok ((trim key, trim value) ∷ values)
with_pair (key ∷ value ∷ []) (err cause) = err cause
with_pair _ values = err invalid_key_val_pair

unfoldable pub parse_pairs : List String → Result InlineJsonParseError (List (String × String))
parse_pairs [] = ok []
parse_pairs (pair ∷ pairs) = with_pair (split 58 pair) (parse_pairs pairs)

unfoldable pub key_value_to_str : String → Result InlineJsonParseError (List (String × String))
unfolding parse_pairs split
key_value_to_str s = parse_pairs (split 44 s)
