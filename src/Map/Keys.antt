-- ===== src/Map/Keys.antt =====
-- Key lists, and maps in which no key stands twice.
use ark_rust.Base.{Eq, ◌≟◌, ◌≡◌, ◌⊎◌, refl, none, List, [], ◌∷◌, arith, if_pos, if_neg}
use ark_rust.Map.{over, Map, get, insert, remove, extend, get-insert, get-remove}

module _ {ℓ} {K V : Type ℓ} where
  unfoldable pub keys : Map K V → List K
  keys [] = []
  keys ((k, v) ∷ m) = k ∷ keys m

module _ {ℓ} {K V : Type ℓ} ⦃e : Eq K⦄ where
  -- No key of the map stands twice in its list.
  abbrev pub IsUnique : Map K V → Type ℓ
  IsUnique [] = Unit
  IsUnique ((k, v) ∷ m) = (get k m ≡ none) × IsUnique m

  pub insert-IsUnique : (k : K) (v : V) (m : Map K V) → IsUnique m → IsUnique (insert k v m)
  unfolding get insert
  insert-IsUnique k v [] u = (refl, tt)
  insert-IsUnique k v ((j, w) ∷ m) u = elim (j ≟ k) [
    | yes p ↦ rw (if_pos _ p) (ground arith)
    | no n ↦ rw (if_neg _ n) (ground (arith, get-insert k j v m), insert-IsUnique k v m u.1)
  ]

  pub remove-IsUnique : (k : K) (m : Map K V) → IsUnique m → IsUnique (remove k m)
  unfolding get remove
  remove-IsUnique k [] u = tt
  remove-IsUnique k ((j, w) ∷ m) u = elim (j ≟ k) [
    | yes p ↦ rw (if_pos _ p) (remove-IsUnique k m u.1)
    | no n ↦ rw (if_neg _ n) (ground (arith, get-remove k j m), remove-IsUnique k m u.1)
  ]

  pub extend-IsUnique : (m : Map K V) (l : List (K × V)) → IsUnique m → IsUnique (extend m l)
  unfolding extend
  extend-IsUnique m [] u = u
  extend-IsUnique m ((k, v) ∷ l) u = extend-IsUnique (insert k v m) l (insert-IsUnique k v m u)

  pub get-extend :
      (k : K) (m : Map K V) (l : Map K V)
      → IsUnique l
      → get k (extend m l) ≡ over (get k l) (get k m)
  unfolding get extend
  get-extend k m [] u = refl
  get-extend k m ((j, v) ∷ l) u =
      ground (arith, get-extend k (insert j v m) l u.1, get-insert j k v m)

  pub get-extend_empty : (k : K) (l : Map K V) → IsUnique l → get k (extend [] l) ≡ get k l
  unfolding get
  get-extend_empty k l u = ground (arith, get-extend k [] l u)

  -- No key is in both maps.
  abbrev pub AreApart : Map K V → Map K V → Type ℓ
  AreApart [] m = Unit
  AreApart ((j, v) ∷ l) m = (get j m ≡ none) × AreApart l m

  pub AreApart-of :
      (l m : Map K V) → IsUnique l → ((k : K) → (get k l ≡ none) ⊎ (get k m ≡ none)) → AreApart l m
  unfolding get
  AreApart-of [] m u h = tt
  AreApart-of ((j, v) ∷ l) m u h =
      (ground (arith, h j), AreApart-of l m u.1 (λ k. ground (arith, h k)))
