-- ===== src/Base/Decimal.antt =====
-- The decimal print of a number, and its reading.
use Prim.Native.Nat.{ℕ, zero, suc, ◌+◌, ◌*◌, ◌/◌, ◌%◌, ◌^◌, ◌<◌, ◌≤◌}
use Prim.Native.Char.{Char, code}
use Prim.Native.String.{String}
use mathlib.Core.Path.{◌≡◌, refl, ap, ◌∙◌}
use mathlib.Core.Logic.{◌⊎◌, inl, inr, ◌≢◌}
use mathlib.Core.Bool.{false}
use mathlib.Core.Option.{some}
use native.Mathlib.Omega.{arith}
use ark_rust.Base.Tests.{◌==◌, if◌then◌else◌, Bool-cases}
use ark_rust.Base.Text.{parse_digits, parse_u64}
use ark_rust.Base.Pieces.{Lacks}
use text.Mathlib.TextLemmas.{cons≢nil}

unfoldable pub digit : ℕ → Char
digit zero = "0"
digit (suc zero) = "1"
digit (suc (suc zero)) = "2"
digit (suc (suc (suc zero))) = "3"
digit (suc (suc (suc (suc zero)))) = "4"
digit (suc (suc (suc (suc (suc zero))))) = "5"
digit (suc (suc (suc (suc (suc (suc zero)))))) = "6"
digit (suc (suc (suc (suc (suc (suc (suc zero))))))) = "7"
digit (suc (suc (suc (suc (suc (suc (suc (suc zero)))))))) = "8"
digit (suc (suc (suc (suc (suc (suc (suc (suc (suc n))))))))) = "9"

-- The digits of a number before a text; the fuel is the most digits there can be.
unfoldable pub digits : ℕ → ℕ → String → String
digits zero n out = out
digits (suc f) n out =
    let rest = digits f (n / 10) (String.◌∷◌ (digit (n % 10)) out) in if n == 0 then out else rest

-- `Display` of a `usize`: 20 digits are enough.
unfoldable pub display : ℕ → String
display n = if n == 0 then "0" else digits 20 n ""

abbrev pub tens : ℕ → ℕ
tens zero = 1
tens (suc f) = 10 * tens f

code-digit : (n : ℕ) → n < 10 → code (digit n) ≡ 48 + n
unfolding digit
code-digit zero h = refl
code-digit (suc zero) h = refl
code-digit (suc (suc zero)) h = refl
code-digit (suc (suc (suc zero))) h = refl
code-digit (suc (suc (suc (suc zero)))) h = refl
code-digit (suc (suc (suc (suc (suc zero))))) h = refl
code-digit (suc (suc (suc (suc (suc (suc zero)))))) h = refl
code-digit (suc (suc (suc (suc (suc (suc (suc zero))))))) h = refl
code-digit (suc (suc (suc (suc (suc (suc (suc (suc zero)))))))) h = refl
code-digit (suc (suc (suc (suc (suc (suc (suc (suc (suc zero))))))))) h = refl
code-digit (suc (suc (suc (suc (suc (suc (suc (suc (suc (suc n)))))))))) h = absurd (omega arith)

parse-digit :
    (n : ℕ) (out : String)
    → n < 2 ^ 64
    → parse_digits (n / 10) (String.◌∷◌ (digit (n % 10)) out) ≡ parse_digits n out
unfolding parse_digits
parse-digit n out h = ground (arith, code-digit (n % 10))

parse-digits :
    (f n : ℕ) (out : String)
    → n < tens f
    → n < 2 ^ 64
    → parse_digits 0 (digits f n out) ≡ parse_digits n out
unfolding digits
parse-digits zero n out h k = ap (λ m. parse_digits m out) (omega arith)
parse-digits (suc f) n out h k =
    ground (arith, parse-digits f (n / 10) (String.◌∷◌ (digit (n % 10)) out), parse-digit n out)

-- A text of digits, and of nothing else.
abbrev pub AreDigits : String → Type 0
AreDigits String.[] = Unit
AreDigits (String.◌∷◌ c s) = (48 ≤ code c) × (code c ≤ 57) × AreDigits s

digits-AreDigits : (f n : ℕ) (out : String) → AreDigits out → AreDigits (digits f n out)
unfolding digits
digits-AreDigits zero n out h = h
digits-AreDigits (suc f) n out h = elim (Bool-cases (n == 0)) [
  | inl done ↦ rw (done, digits) h
  | inr more ↦
      rw (more, digits)
        (digits-AreDigits f (n / 10) _
          (omega (arith, code-digit (n % 10)), omega (arith, code-digit (n % 10)), h))
]

display-AreDigits : (n : ℕ) → AreDigits (display n)
unfolding display
display-AreDigits n = elim (Bool-cases (n == 0)) [
  | inl done ↦ rw (done, display) (omega arith)
  | inr more ↦ rw (more, display) (digits-AreDigits 20 n "" tt)
]

-- Digits are no other characters.
AreDigits-Lacks : (c : ℕ) (s : String) → (c < 48) ⊎ (57 < c) → AreDigits s → Lacks c s
AreDigits-Lacks c String.[] o h = tt
AreDigits-Lacks c (String.◌∷◌ d s) o h = (ground arith, AreDigits-Lacks c s o h.2)

pub display-Lacks : (c n : ℕ) → (c < 48) ⊎ (57 < c) → Lacks c (display n)
display-Lacks c n o = AreDigits-Lacks c (display n) o (display-AreDigits n)

parse_u64-AreDigits :
    (s : String) (n : ℕ)
    → AreDigits s
    → s ≢ String.[]
    → parse_digits 0 s ≡ some n
    → parse_u64 s ≡ some n
unfolding parse_u64 parse_digits
parse_u64-AreDigits String.[] n d h p = absurd (h refl)
parse_u64-AreDigits (String.◌∷◌ c String.[]) n d h p = p
parse_u64-AreDigits (String.◌∷◌ c (String.◌∷◌ f s)) n d h p =
    rw (let other : code c == 43 ≡ false = ground arith in other, parse_u64) p

digits-ne-nil : (f n : ℕ) (out : String) → out ≢ String.[] → digits f n out ≢ String.[]
unfolding digits
digits-ne-nil zero n out h = h
digits-ne-nil (suc f) n out h = elim (Bool-cases (n == 0)) [
  | inl done ↦ rw (done, digits) h
  | inr more ↦ rw (more, digits) (digits-ne-nil f (n / 10) _ (cons≢nil))
]

first_digit : (n : ℕ) → n == 0 ≡ false → digits 20 n "" ≢ String.[]
unfolding digits
first_digit n h = rw (h, digits) (digits-ne-nil 19 (n / 10) _ (cons≢nil))

read_zero : parse_u64 "0" ≡ some 0
unfolding parse_u64 parse_digits
read_zero = refl

-- Every number below 2^64 is read back from its print.
pub parse_u64-display : (n : ℕ) → n < 2 ^ 64 → parse_u64 (display n) ≡ some n
unfolding display parse_digits
parse_u64-display n h = elim (Bool-cases (n == 0)) [
  | inl done ↦ rw (done, display) (read_zero ∙ (let z : 0 ≡ n = ground arith in ap some z))
  | inr more ↦
      rw (more, display)
        (parse_u64-AreDigits (digits 20 n "") n (digits-AreDigits 20 n "" tt) (first_digit n more)
          (parse-digits 20 n "" (omega arith) h))
]
