-- ===== src/Storage/Fault.antt =====
-- The lines of version 2 of the file storage that `read_version_2_fs` of fs-storage/src/utils.rs
-- does not expect.
use ark_rust.Base.{Eq, ◌≡◌, String, some, List, [], ◌∷◌, ◌++◌, arith, refl, inl, inr}
use ark_rust.Base.Text.{split}
use ark_rust.Error.{ok, returned, panic, Outcome-cases}
use ark_rust.Map
use ark_rust.Map.{Map}
use ark_rust.Storage.Legacy.{Parsers, parse_second, parse_parts, parse_lines}

module _ {K V : Type 0} ⦃e : Eq K⦄ (f : Parsers K V) where
  bad_line :
      (line part : String) (rest : List String) (key : K) (m : Map K V)
      → split 58 line ≡ part ∷ []
      → f.parse_key part ≡ some key
      → parse_lines f (line ∷ rest) m ≡ panic
  unfolding parse_lines
  bad_line line part rest key m one parses = rw (one, parse_lines) (rw (parses, parse_second) refl)

  -- After any lines that parse, a line of version 2 with a key and no colon makes the reader
  -- panic.
  parse_lines-panic :
      (good : List String) (line part : String) (rest : List String) (key : K) (m m' : Map K V)
      → parse_lines f good m ≡ returned (ok m')
      → split 58 line ≡ part ∷ []
      → f.parse_key part ≡ some key
      → parse_lines f (good ++ line ∷ rest) m ≡ panic
  unfolding parse_lines
  parse_lines-panic [] line part rest key m m' h one parses =
      bad_line line part rest key m one parses
  parse_lines-panic (l ∷ good) line part rest key m m' h one parses =
      elim (Outcome-cases (parse_parts f (split 58 l))) [
        | inl fails ↦ absurd (ground arith)
        | inr (inl (cause, fails)) ↦ absurd (ground arith)
        | inr (inr ((k, v), parsed)) ↦
            rw (parsed, parse_lines)
              (parse_lines-panic good line part rest key (Map.insert k v m) m' (ground arith) one
                parses)
      ]
