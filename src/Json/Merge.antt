-- ===== src/Json/Merge.antt =====
-- data-json/src/lib.rs: `merge`, `merge_object` and `merge_vec`.
use ark_rust.Base.{
  Eq, ◌≟◌, string_eq, String, Bool, true, false, ◌&&◌, ite, none, some, List, [], ◌∷◌, ◌++◌,
  if◌then◌else◌,
}
use ark_rust.Map
use ark_rust.Map.{Map}
use ark_rust.Json.Value.{
  Value, null, array, object, elements, entries, fields, value_eq, alike, vector,
}

module _ {ℓ} {A : Type ℓ} where
  unfoldable pub filter : (A → Bool) → List A → List A
  filter keep [] = []
  filter keep (v ∷ l) = let rest = filter keep l in if keep v then v ∷ rest else rest

  unfoldable pub every : (A → Bool) → List A → Bool
  every test [] = true
  every test (v ∷ l) = let rest = every test l in if test v then rest else false

module _ {N : Type 0} ⦃e : Eq N⦄ where
  abbrev pub differ : Value N → Value N → Bool
  differ v w = ite (v ≟ w) false true

  unfoldable pub merge_vec : List (Value N) → List (Value N) → Value N
  merge_vec [] new_data = vector new_data
  merge_vec (v ∷ original) [] = vector (v ∷ original)
  merge_vec (v ∷ original) (w ∷ new_data) =
      let filtered = filter (λ x. alike x v) (v ∷ original) in
      vector
        (filtered ++ filter (λ x. alike x v && every (λ y. differ y x) filtered) (w ∷ new_data))

  -- Two values that are not arrays: an array of both, if they differ and have the same type.
  unfoldable pub merge_pair : Value N → Value N → Value N
  unfolding alike
  merge_pair old new = if alike old new && differ old new then vector (old ∷ new ∷ []) else old

  -- What `merge_object` sets for a key of both objects.
  unfoldable pub merge_entry : Value N → Value N → Value N
  unfolding merge_vec merge_pair
  merge_entry (array old_data) (array new_data) = merge_vec (elements old_data) (elements new_data)
  merge_entry (array d) null = array d
  merge_entry (array old_data) new_data =
      if every (λ val. alike new_data val) (elements old_data)
      then vector (elements old_data ++ new_data ∷ [])
      else array old_data
  merge_entry old (array new_data) =
      if every (λ val. alike old val) (elements new_data)
      then vector (old ∷ elements new_data)
      else old
  merge_entry old new = merge_pair old new

  -- The loop of `merge_object`: an occupied entry is taken out and its merged value set.
  unfoldable pub merge_fields : Map String (Value N) → Map String (Value N) → Map String (Value N)
  unfolding merge_entry
  merge_fields origin [] = origin
  merge_fields origin ((key, value) ∷ rest) = elim (Map.get key origin) [
    | none ↦ merge_fields (Map.insert key value origin) rest
    | some prev ↦
        merge_fields (Map.insert key (merge_entry prev value) (Map.remove key origin)) rest
  ]

  unfoldable pub merge_object : Map String (Value N) → Map String (Value N) → Value N
  unfolding merge_fields
  merge_object origin new_data = object (fields (merge_fields origin new_data))

  -- `merge` of an array and a value that is no array.
  unfoldable pub merge_push : List (Value N) → Value N → Value N
  merge_push [] new = vector (new ∷ [])
  merge_push (v ∷ old) new =
      if alike v new then vector ((v ∷ old) ++ new ∷ []) else vector (v ∷ old)

  -- `merge` of a value that is no array and an array.
  unfoldable pub merge_front : Value N → List (Value N) → Value N
  merge_front old [] = old
  merge_front old (v ∷ new_data) = if alike old v then vector (old ∷ v ∷ new_data) else old

  unfoldable pub merge : Value N → Value N → Value N
  unfolding merge_object merge_vec merge_push merge_front merge_pair
  merge (object old) (object new) = merge_object (entries old) (entries new)
  merge (array old) (array new) = merge_vec (elements old) (elements new)
  merge (array old) new = merge_push (elements old) new
  merge old (array new_data) = merge_front old (elements new_data)
  merge old null = old
  merge null new = new
  merge old new = merge_pair old new
