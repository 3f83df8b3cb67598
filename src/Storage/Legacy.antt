-- ===== src/Storage/Legacy.antt =====
-- fs-storage/src/utils.rs: the plain text of version 2 of the file storage.
use text.Mathlib.Text.{starts_with}
use ark_rust.Base.{Eq, String, Option, none, some, List, [], ◌∷◌, not, if◌then◌else◌}
use ark_rust.Base.Text.{split, lines}
use ark_rust.Error.{ArklibError, Outcome, ok, err, returned, panic}
use ark_rust.Map
use ark_rust.Map.{Map}

-- `FromStr` of the keys and of the values; `none` is its error.
pub record Parsers (K V : Type 0) : Type 0 where
  pub parse_key : String → Option K
  pub parse_value : String → Option V

module _ {K V : Type 0} ⦃e : Eq K⦄ (f : Parsers K V) where
  -- The second part of a line, after its key; without one, `unwrap` panics.
  unfoldable pub parse_second : K → List String → Outcome ArklibError (K × V)
  parse_second key [] = panic
  parse_second key (part ∷ parts) = elim (f.parse_value part) [
    | none ↦ returned (err ArklibError.parse)
    | some value ↦ returned (ok (key, value))
  ]

  unfoldable pub parse_parts : List String → Outcome ArklibError (K × V)
  unfolding parse_second
  parse_parts [] = panic
  parse_parts (part ∷ parts) = elim (f.parse_key part) [
    | none ↦ returned (err ArklibError.parse)
    | some key ↦ parse_second key parts
  ]

  unfoldable pub parse_lines : List String → Map K V → Outcome ArklibError (Map K V)
  unfolding parse_parts
  parse_lines [] entries = returned (ok entries)
  parse_lines (line ∷ rest) entries = elim (parse_parts (split 58 line)) [
    | panic ↦ panic
    | returned (err cause) ↦ returned (err cause)
    | returned (ok (key, value)) ↦ parse_lines rest (Map.insert key value entries)
  ]

  abbrev pub skip_first : List String → List String
  skip_first [] = []
  skip_first (line ∷ rest) = rest

  -- `read_version_2_fs`, of the content of the file.
  unfoldable pub read_version_2 : String → Outcome ArklibError (Map K V)
  unfolding parse_lines lines
  read_version_2 content =
      if not (starts_with content "version: 2")
      then returned (err ArklibError.parse)
      else parse_lines (skip_first (lines content)) []
