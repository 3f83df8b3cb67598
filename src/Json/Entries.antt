-- ===== src/Json/Entries.antt =====
-- `merge_object` of data-json/src/lib.rs, key by key.
use mathlib.Core.List.{append-nil}
use ark_rust.Base.{
  Eq, ◌≡◌, refl, ap, ◌∙◌, string_eq, String, true, ◌&&◌, Option, none, some, List, [], ◌∷◌, ◌++◌,
  All, arith, Option-cases, inl, inr,
}
use ark_rust.Map.{Map, get, insert, remove, get-insert, get-remove}
use ark_rust.Map.Keys.{IsUnique}
use ark_rust.Json.Value.{
  Value, null, boolean, number, string, array, object, elements, items, nil, cons, value_eq, alike,
  vector, items-elements, entries, Fields, entries-fields,
}
use ark_rust.Json.Merge.{
  filter, every, differ, merge_vec, merge_pair, merge_entry, merge_fields, merge, merge_object,
}
use ark_rust.Json.Uniform.{filter-All, contains-filter, every-differ, empty_of}

module _ {N : Type 0} ⦃e : Eq N⦄ where
  -- What a key maps into after a merge.
  abbrev pub merged : Option (Value N) → Option (Value N) → Option (Value N)
  merged old none = old
  merged none (some new) = some new
  merged (some old) (some new) = some (merge_entry old new)

  -- After a merge of objects each key has the only value there is, or the merge of both.
  pub get-merge_fields :
      (k : String) (origin new_data : Map String (Value N))
      → IsUnique new_data
      → get k (merge_fields origin new_data) ≡ merged (get k origin) (get k new_data)
  unfolding merge_fields get
  get-merge_fields k origin [] u = refl
  get-merge_fields k origin ((key, value) ∷ rest) u = elim (Option-cases (get key origin)) [
    | inl vacant ↦
        rw (vacant, merge_fields)
          (get-merge_fields k (insert key value origin) rest u.1
            ∙ ground (arith, get-insert key k value origin))
    | inr (prev, occupied) ↦
        rw (occupied, merge_fields)
          (get-merge_fields k (insert key (merge_entry prev value) (remove key origin)) rest u.1
            ∙ ground (
              arith,
              get-insert key k (merge_entry prev value) (remove key origin),
              get-remove key k origin,
            ))
  ]

  -- The values of an array have the type of the first one.
  abbrev pub IsRegular : Value N → Type 0
  IsRegular (array (cons v l)) = All (λ x. alike x v ≡ true) (v ∷ elements l)
  IsRegular _ = Unit

  merge_vec_self :
      (v : Value N) (l : List (Value N))
      → All (λ x. alike x v ≡ true) (v ∷ l)
      → merge_vec (v ∷ l) (v ∷ l) ≡ vector (v ∷ l)
  unfolding merge_vec
  merge_vec_self v l h =
      let again = λ (x : Value N). alike x v && every (λ y. differ y x) (v ∷ l) in
      rw (filter-All (λ x. alike x v) (v ∷ l) h) (
        ap (λ m. vector ((v ∷ l) ++ m))
          (empty_of (filter again (v ∷ l))
            (λ x. ground (arith, contains-filter again x (v ∷ l), every-differ x (v ∷ l))))
        ∙ ap vector (append-nil (v ∷ l)))

  -- The merge of a value with itself is the value, where its array has values of one type.
  pub merge_entry_self : (v : Value N) → IsRegular v → merge_entry v v ≡ v
  unfolding merge_entry merge_pair elements items
  merge_entry_self null h = ground arith
  merge_entry_self (boolean b) h = ground arith
  merge_entry_self (number n) h = ground arith
  merge_entry_self (string s) h = ground arith
  merge_entry_self (object m) h = ground arith
  merge_entry_self (array nil) h = refl
  merge_entry_self (array (cons v l)) h =
      merge_vec_self v (elements l) h ∙ ap (λ x. array (cons v x)) (items-elements l)

  abbrev pub entries_of : Value N → Map String (Value N)
  entries_of (object m) = entries m
  entries_of _ = []

  -- After merge of two objects, the new one with unique keys, each key has the only value there
  -- is, or the merge of both.
  pub get-merge :
      (k : String) (old new : Fields N)
      → IsUnique (entries new)
      → get k (entries_of (merge (object old) (object new)))
        ≡ merged (get k (entries old)) (get k (entries new))
  unfolding merge merge_object
  get-merge k old new u =
      ap (get k) (entries-fields (merge_fields (entries old) (entries new)))
      ∙ get-merge_fields k (entries old) (entries new) u

  -- The merge of an object with itself changes no value, where its keys are unique and its arrays
  -- have values of one type.
  pub get-merge_self :
      (k : String) (m : Fields N)
      → IsUnique (entries m)
      → ((j : String) (v : Value N) → get j (entries m) ≡ some v → IsRegular v)
      → get k (entries_of (merge (object m) (object m))) ≡ get k (entries m)
  get-merge_self k m u regular = get-merge k m m u ∙ elim (Option-cases (get k (entries m))) [
    | inl missing ↦ ground arith
    | inr (v, there) ↦ ground (arith, merge_entry_self v (regular k v there))
  ]
