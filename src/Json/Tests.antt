-- ===== src/Json/Tests.antt =====
-- Merges of small values, and the theorems on them.
use ark_rust.Base.{
  ℕ, nat_eq, ℕ_discrete, String-discrete, string_eq, ◌≡◌, refl, ◌&&◌, ◌||◌, [], ◌∷◌, some,
}
use ark_rust.Map.{get, insert, remove, contains}
use ark_rust.Json.Value.{
  Value, Fields, number, string, array, object, nil, cons, end, field, elements, items, entries,
  fields, alike, value_eq, Value-discrete, Discriminant-discrete,
}
use ark_rust.Json.Merge.{
  merge, merge_vec, merge_fields, merge_entry, merge_pair, merge_object, filter, every,
}
use ark_rust.Json.Uniform.{values, contains-merge_vec}
use ark_rust.Json.Entries.{entries_of, get-merge}

running : Unit {0}
unfolding merge merge_vec merge_fields merge_entry merge_pair merge_object filter every elements
    items entries fields alike Value-discrete Discriminant-discrete String-discrete ℕ_discrete get
    insert remove contains
running = tt

abbrev one : Value ℕ
one = number 1

abbrev two : Value ℕ
two = number 2

abbrev text : Value ℕ
text = string "b"

vectors_merged :
    merge (array (cons one (cons text nil))) (array (cons text (cons one (cons two nil))))
    ≡ array (cons one (cons two nil))
unfolding running
vectors_merged = refl

contains-merge_vec_example :
    contains two (values (merge_vec (one ∷ text ∷ []) (text ∷ two ∷ [])))
    ≡ (alike two one && (contains two (one ∷ text ∷ []) || contains two (text ∷ two ∷ [])))
contains-merge_vec_example = contains-merge_vec two one text (text ∷ []) (two ∷ [])

abbrev old : Fields ℕ
old = field "a" one (field "b" text end)

abbrev new : Fields ℕ
new = field "a" two (field "c" text end)

get-merge_example :
    get "a" (entries_of (merge (object old) (object new))) ≡ some (array (cons one (cons two nil)))
unfolding running
get-merge_example = get-merge "a" old new (refl, (refl, tt))

abbrev regular : Fields ℕ
regular = field "a" (array (cons one (cons two nil))) end
