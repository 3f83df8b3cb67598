-- ===== src/Storage/Monoid.antt =====
-- fs-storage/src/monoid.rs: how two values of a key are combined.
use Prim.Native.String.{◌++◌ as push_str}
use ark_rust.Base.{String, ◌≡◌, ◌↔◌, List, [], ◌∷◌, arith, if◌then◌else◌}
use ark_rust.Base.Int.{ℤ, pos, negsuc, ◌≤ℤ◌, gt, eq_of_parts}

pub record Monoid {ℓ} (V : Type ℓ) : Type ℓ where
  pub neutral : V
  pub combine : V → V → V

module _ {ℓ} {V : Type ℓ} (m : Monoid V) where
  -- `fold` with the accumulator on the left
  unfoldable pub fold_from : V → List V → V
  fold_from acc [] = acc
  fold_from acc (v ∷ vs) = fold_from (m.combine acc v) vs

  unfoldable pub combine_all : List V → V
  unfolding fold_from
  combine_all values = fold_from m.neutral values

-- `impl Monoid<i32> for i32`
abbrev pub i32_combine : ℤ → ℤ → ℤ
i32_combine a b = if gt a b then a else b

abbrev pub i32_monoid : Monoid ℤ
i32_monoid = record { neutral = pos 0; combine = i32_combine }

-- `impl Monoid<String> for String`
abbrev pub string_monoid : Monoid String
string_monoid = record { neutral = ""; combine = push_str }

-- Combining numbers is commutative, associative and idempotent.
pub i32_combine_join :
    (a b c : ℤ)
    → (i32_combine a b ≡ i32_combine b a)
      × (i32_combine (i32_combine a b) c ≡ i32_combine a (i32_combine b c))
      × (i32_combine a a ≡ a)
i32_combine_join a b c = (
  ground (arith, eq_of_parts a b),
  ground (arith, eq_of_parts a b, eq_of_parts b c, eq_of_parts a c),
  ground arith,
)

-- The neutral element of i32 is neutral for the numbers from 0 on, and for no other.
pub i32_neutral_iff : (a : ℤ) → (i32_combine i32_monoid.neutral a ≡ a) ↔ (pos 0 ≤ℤ a)
i32_neutral_iff (pos n) = (λ h. omega arith, λ h. ground arith)
i32_neutral_iff (negsuc n) = (λ h. ground arith, λ h. ground arith)
