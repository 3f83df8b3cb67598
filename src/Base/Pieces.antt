-- ===== src/Base/Pieces.antt =====
-- What `split` makes of a text that is put together from pieces.
use Prim.Native.Nat.{ℕ}
use Prim.Native.Char.{Char, code}
use Prim.Native.String.{String, ◌++◌}
use mathlib.Core.Path.{◌≡◌, refl, ap, ◌∙◌}
use mathlib.Core.Bool.{false, true}
use mathlib.Core.List.{List, [], ◌∷◌}
use mathlib.Core.Logic.{inl, inr}
use text.Mathlib.TextLemmas.{cons-append, nil-append}
use ark_rust.Base.Tests.{◌==◌, Bool-cases}
use ark_rust.Base.Text.{split, prepend, strip_cr, ended, lines}

-- No character of the text has this code.
abbrev pub Lacks : ℕ → String → Type 0
Lacks c String.[] = Unit
Lacks c (String.◌∷◌ d s) = (code d == c ≡ false) × Lacks c s

pub split-Lacks : (c : ℕ) (s : String) → Lacks c s → split c s ≡ s ∷ []
unfolding split prepend
split-Lacks c String.[] h = refl
split-Lacks c (String.◌∷◌ d s) h = rw (h.0, split) (rw (split-Lacks c s h.1) refl)

pub split-append :
    (c : ℕ) (d : Char) (s t : String)
    → code d == c ≡ true
    → Lacks c s
    → split c (s ++ String.◌∷◌ d t) ≡ s ∷ split c t
unfolding split prepend
split-append c d String.[] t e h = rw (nil-append (String.◌∷◌ d t)) (rw (e, split) refl)
split-append c d (String.◌∷◌ f s) t e h =
    rw (cons-append f s (String.◌∷◌ d t)) (rw (h.0, split) (rw (split-append c d s t e h.1) refl))

pub Lacks-append : (c : ℕ) (s t : String) → Lacks c s → Lacks c t → Lacks c (s ++ t)
Lacks-append c String.[] t h k = rw (nil-append t) k
Lacks-append c (String.◌∷◌ d s) t h k = rw (cons-append d s t) (h.0, Lacks-append c s t h.1 k)

pub split_some : (c : ℕ) (s : String) → (v : String) × (ws : List String) × (split c s ≡ v ∷ ws)
unfolding split prepend
split_some c String.[] = (String.[], [], refl)
split_some c (String.◌∷◌ d s) =
    let (v, ws, rest) = split_some c s in
    elim (Bool-cases (code d == c)) [
      | inl is ↦ (String.[], split c s, rw (is, split) refl)
      | inr other ↦ (String.◌∷◌ d v, ws, rw (other, split) (rw rest refl))
    ]

strip_cr-Lacks : (s : String) → Lacks 13 s → strip_cr s ≡ s
unfolding strip_cr
strip_cr-Lacks String.[] h = refl
strip_cr-Lacks (String.◌∷◌ d String.[]) h = rw (h.0, strip_cr) refl
strip_cr-Lacks (String.◌∷◌ d (String.◌∷◌ f s)) h =
    ap (λ t. String.◌∷◌ d t) (strip_cr-Lacks (String.◌∷◌ f s) h.1)

-- A line with its end, before other text.
pub lines-append :
    (s t : String) → Lacks 10 s → Lacks 13 s → lines (s ++ String.◌∷◌ "\n" t) ≡ s ∷ lines t
unfolding lines
lines-append s t h k =
    let (v, ws, rest) = split_some 10 t in
    rw (split-append 10 "\n" s t refl h)
      (rw rest (ap (λ w. w ∷ ended (v ∷ ws)) (strip_cr-Lacks s k)))

-- An end of a line before other text.
pub newline_append : (s : String) → "\n" ++ s ≡ String.◌∷◌ "\n" s
newline_append s = cons-append "\n" "" s ∙ ap (λ t. String.◌∷◌ "\n" t) (nil-append s)
