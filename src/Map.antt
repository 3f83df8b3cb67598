-- ===== src/Map.antt =====
-- Finite maps and sets: `HashMap`, `BTreeMap` and `HashSet` as lists without an order of their
-- own. A statement that holds for every list holds for every order of iteration.
pub mod Keys
use ark_rust.Base.{
  Eq, ◌≟◌, ◌≡◌, refl, ite, Bool, true, false, Option, none, some, List, [], ◌∷◌, arith,
}

abbrev pub Map {ℓ} : Type ℓ → Type ℓ → Type ℓ
Map K V = List (K × V)

-- The first value, or else the second.
abbrev pub over {ℓ} : {V : Type ℓ} → Option V → Option V → Option V
over (some v) w = some v
over none w = w

module _ {ℓ} {K V : Type ℓ} ⦃e : Eq K⦄ where
  unfoldable pub get : K → Map K V → Option V
  get k [] = none
  get k ((j, v) ∷ m) = ite (j ≟ k) (some v) (get k m)

  unfoldable pub insert : K → V → Map K V → Map K V
  insert k v [] = (k, v) ∷ []
  insert k v ((j, w) ∷ m) = ite (j ≟ k) ((k, v) ∷ m) ((j, w) ∷ insert k v m)

  unfoldable pub remove : K → Map K V → Map K V
  remove k [] = []
  remove k ((j, v) ∷ m) = let rest = remove k m in ite (j ≟ k) rest ((j, v) ∷ rest)

  -- `collect` into a map: a later entry replaces an earlier one.
  unfoldable pub extend : Map K V → List (K × V) → Map K V
  extend m [] = m
  extend m ((k, v) ∷ l) = extend (insert k v m) l

  pub get-insert :
      (k j : K) (v : V) (m : Map K V) → get j (insert k v m) ≡ ite (k ≟ j) (some v) (get j m)
  unfolding get insert
  get-insert k j v [] = refl
  get-insert k j v ((i, w) ∷ m) = ground (arith, get-insert k j v m)

  pub get-remove : (k j : K) (m : Map K V) → get j (remove k m) ≡ ite (k ≟ j) none (get j m)
  unfolding get remove
  get-remove k j [] = ground arith
  get-remove k j ((i, w) ∷ m) = ground (arith, get-remove k j m)

  pub get_new : (k : K) (v : V) (m : Map K V) → get k (insert k v m) ≡ some v
  get_new k v m = ground (arith, get-insert k k v m)

  pub get-remove_self : (k : K) (m : Map K V) → get k (remove k m) ≡ none
  get-remove_self k m = ground (arith, get-remove k k m)

module _ {ℓ} {K : Type ℓ} ⦃e : Eq K⦄ where
  unfoldable pub contains : K → List K → Bool
  contains k [] = false
  contains k (j ∷ s) = ite (j ≟ k) true (contains k s)

  unfoldable pub add : K → List K → List K
  unfolding contains
  add k s = elim (contains k s) [ true ↦ s | false ↦ k ∷ s ]
