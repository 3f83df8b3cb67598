-- ===== src/Atomic/Names.antt =====
-- The names of the versions of an `AtomicFile` (fs-atomic-versions/src/atomic/file.rs), which
-- `parse_version` reads.
use Prim.Native.Char.{Char, code}
use Prim.Native.String.{◌++◌ as push_str}
use text.Mathlib.TextLemmas.{cons-append, nil-append, append_assoc}
use ark_rust.Base.{
  ℕ, ◌^◌, ◌<◌, ◌==◌, String, true, some, List, [], ◌∷◌, ◌≡◌, refl, sym, ap, ◌∙◌, arith, inl, inr,
  Bool-cases,
}
use ark_rust.Base.Text.{split, prepend}
use ark_rust.Base.Pieces.{Lacks, split-Lacks}
use ark_rust.Base.Decimal.{display, display-Lacks, parse_u64-display}
use ark_rust.Atomic.File.{AtomicFile, parse_version, after_last, name, path}

after_last-cons :
    (v t : String) (l : List String) → after_last l ≡ some t → after_last (v ∷ l) ≡ some t
unfolding after_last
after_last-cons v t [] h = absurd (ground arith)
after_last-cons v t (w ∷ []) h = absurd (ground arith)
after_last-cons v t (w ∷ u ∷ l) h = h

after_last-prepend :
    (d : Char) (t : String) (l : List String)
    → after_last l ≡ some t
    → after_last (prepend d l) ≡ some t
unfolding after_last prepend
after_last-prepend d t [] h = absurd (ground arith)
after_last-prepend d t (w ∷ []) h = absurd (ground arith)
after_last-prepend d t (w ∷ v ∷ []) h = h
after_last-prepend d t (w ∷ v ∷ u ∷ l) h = h

-- What follows the last separator is the text behind it, where that has none.
after_last-split :
    (c : ℕ) (d : Char) (s t : String)
    → code d == c ≡ true
    → Lacks c t
    → after_last (split c (push_str s (String.◌∷◌ d t))) ≡ some t
unfolding split after_last
after_last-split c d String.[] t e h =
    rw (nil-append (String.◌∷◌ d t)) (rw (e, split) (rw (split-Lacks c t h) refl))
after_last-split c d (String.◌∷◌ f s) t e h =
    rw (cons-append f s (String.◌∷◌ d t)) (elim (Bool-cases (code f == c)) [
      | inl is ↦
          rw (is, split)
            (after_last-cons "" t (split c (push_str s (String.◌∷◌ d t)))
              (after_last-split c d s t e h))
      | inr other ↦
          rw (other, split)
            (after_last-prepend f t (split c (push_str s (String.◌∷◌ d t)))
              (after_last-split c d s t e h))
    ])

parse-dotted :
    (stem : String) (n : ℕ)
    → n < 2 ^ 64
    → parse_version (some (push_str (push_str stem ".") (display n))) ≡ some n
unfolding parse_version
parse-dotted stem n h =
    ap (λ s. parse_version (some s))
      (append_assoc stem "." (display n)
        ∙ ap (push_str stem)
            (cons-append "." "" (display n) ∙ ap (λ t. String.◌∷◌ "." t) (nil-append (display n))))
    ∙ ground (
      arith,
      after_last-split 46 "." stem (display n) refl (display-Lacks 46 n (inl (omega arith))),
      parse_u64-display n h,
    )

-- The name of a version is read as this version.
pub parse-name :
    (file : AtomicFile) (stem : String) (n : ℕ)
    → file.prefix ≡ push_str stem "."
    → n < 2 ^ 64
    → parse_version (some (name file n)) ≡ some n
parse-name file stem n dotted h =
    ap (λ s. parse_version (some (push_str s (display n)))) dotted ∙ parse-dotted stem n h

-- So is its path.
pub parse-path :
    (file : AtomicFile) (stem : String) (n : ℕ)
    → file.prefix ≡ push_str stem "."
    → n < 2 ^ 64
    → parse_version (some (path file n)) ≡ some n
parse-path file stem n dotted h =
    ap (λ s. parse_version (some s))
      (ap (λ s. push_str (push_str file.directory "/") (push_str s (display n))) dotted
        ∙ sym (append_assoc (push_str file.directory "/") (push_str stem ".") (display n))
        ∙ ap (λ s. push_str s (display n))
            (sym (append_assoc (push_str file.directory "/") stem ".")))
    ∙ parse-dotted (push_str (push_str file.directory "/") stem) n h
