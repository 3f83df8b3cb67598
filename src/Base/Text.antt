-- ===== src/Base/Text.antt =====
-- Text, cut the way `str::split` with a character and `str::lines` cut it, and decimal numbers.
use Prim.Native.Nat.{ℕ, ◌+◌, ◌-◌, ◌*◌, ◌^◌}
use Prim.Native.Char.{Char, code}
use Prim.Native.String.{String}
use mathlib.Core.Path.{◌≡◌}
use mathlib.Core.List.{List, [], ◌∷◌}
use mathlib.Core.Bool.{◌&&◌}
use mathlib.Core.Option.{Option, none, some}
use ark_rust.Base.Tests.{◌==◌, leb, ltb, if◌then◌else◌}

-- The character before the first piece.
unfoldable pub prepend : Char → List String → List String
prepend c [] = (String.◌∷◌ c String.[]) ∷ []
prepend c (w ∷ ws) = String.◌∷◌ c w ∷ ws

-- `s.split(c)`: always one piece or more.
unfoldable pub split : ℕ → String → List String
unfolding prepend
split c String.[] = String.[] ∷ []
split c (String.◌∷◌ d s) =
    let rest = split c s in if code d == c then String.[] ∷ rest else prepend d rest

-- A `\r` at the end of a line is part of the line's end.
unfoldable pub strip_cr : String → String
strip_cr String.[] = String.[]
strip_cr (String.◌∷◌ d String.[]) = if code d == 13 then String.[] else String.◌∷◌ d String.[]
strip_cr (String.◌∷◌ d (String.◌∷◌ f s)) = String.◌∷◌ d (strip_cr (String.◌∷◌ f s))

-- The last piece has no line end; it counts only if it is not empty.
unfoldable pub ended : List String → List String
unfolding strip_cr
ended [] = []
ended (String.[] ∷ []) = []
ended (String.◌∷◌ d s ∷ []) = String.◌∷◌ d s ∷ []
ended (w ∷ v ∷ ws) = strip_cr w ∷ ended (v ∷ ws)

unfoldable pub lines : String → List String
unfolding split ended
lines s = ended (split 10 s)

-- Decimal digits, and no number from 2^64 on.
unfoldable pub parse_digits : ℕ → String → Option ℕ
parse_digits acc String.[] = some acc
parse_digits acc (String.◌∷◌ c s) =
    let n = acc * 10 + (code c - 48) in
    let rest = parse_digits n s in
    if leb 48 (code c) && leb (code c) 57 && ltb n (2 ^ 64) then rest else none

-- `parse::<u64>` and `parse::<usize>`, which allow a sign `+`.
unfoldable pub parse_u64 : String → Option ℕ
unfolding parse_digits
parse_u64 String.[] = none
parse_u64 (String.◌∷◌ c String.[]) = parse_digits 0 (String.◌∷◌ c String.[])
parse_u64 (String.◌∷◌ c (String.◌∷◌ d s)) =
    if code c == 43
    then parse_digits 0 (String.◌∷◌ d s)
    else parse_digits 0 (String.◌∷◌ c (String.◌∷◌ d s))

lines_cut : lines "a:1\r\nb\n" ≡ "a:1" ∷ "b" ∷ []
unfolding lines
lines_cut = λ i. "a:1" ∷ "b" ∷ []
