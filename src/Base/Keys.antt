-- ===== src/Base/Keys.antt =====
-- Decidable equality as an interface: what `PartialEq + Eq` give the source's generic keys.
use Prim.Native.Nat.{ℕ}
use Prim.Native.String.{String}
use mathlib.Core.Path.{◌≡◌, refl}
use mathlib.Core.Bool.{Bool, true, false, false≢true}
use native.Mathlib.Decide.{ℕ_discrete}
use text.Mathlib.Text.{◌==◌}
use text.Mathlib.TextEquality.{eq_iff}

pub record Eq {ℓ} (A : Type ℓ) : Type ℓ where
  pub dec : Discrete A

infix 50 ◌≟◌
abbrev pub ◌≟◌ {ℓ} : {A : Type ℓ} ⦃e : Eq A⦄ (a b : A) → Dec (a ≡ b)
◌≟◌ ⦃e⦄ = e.dec

instance abbrev pub nat_eq : Eq ℕ
nat_eq = record { dec = ℕ_discrete }

unfoldable pub String-discrete : Discrete String
String-discrete s t = decided (s == t) (eq_iff s t).0 (eq_iff s t).1
  where
    decided : (b : Bool) → (b ≡ true → s ≡ t) → (s ≡ t → b ≡ true) → Dec (s ≡ t)
    decided true sound complete = yes (sound refl)
    decided false sound complete = no (λ p. false≢true (complete p))

instance abbrev pub string_eq : Eq String
string_eq = record { dec = String-discrete }
