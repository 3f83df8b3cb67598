-- ===== src/Link/Again.antt =====
-- data-link/src/lib.rs: the properties that a link has after it was saved a second time.
use ark_rust.Base.{
  String-discrete, Eq, string_eq, ◌≟◌, String, Bool, true, false, Option, none, some, ◌≡◌, refl, ap,
  ◌∙◌, arith, ite, ◌&&◌, if◌then◌else◌,
}
use ark_rust.Json.Value.{
  array, nil, cons, field, end, Discriminant-discrete, Value, string, object, value_eq, alike,
  items, fields, entries,
}
use ark_rust.Json.Merge.{merge, merge_object, merge_fields, merge_entry, merge_pair}
use ark_rust.Map.{get, insert, remove}
use ark_rust.Link.Data.{read_optional, optional, LinkProperties, to_value, of_value}

-- Whether a description can be read after another one was merged into it.
abbrev pub is_kept : Option String → Option String → Bool
is_kept (some old) (some new) = ite (old ≟ new) true false
is_kept _ _ = true

module _ (N : Type 0) ⦃e : Eq N⦄ where
  merged_fields :
      (t t' : String) (d d' : Value N)
      → merge
          (object (field "title" (string t) (field "desc" d end)))
          (object (field "title" (string t') (field "desc" d' end)))
        ≡ object (
            field "title"
              (merge_entry (string t) (string t'))
              (field "desc" (merge_entry d d') end))
  unfolding merge merge_object merge_fields entries fields get insert remove String-discrete
  merged_fields t t' d d' = refl

  alike_strings : (t t' : String) → alike {N = N} (string t) (string t') ≡ true
  unfolding alike Discriminant-discrete
  alike_strings t t' = refl

  string_entry :
      (t t' : String)
      → merge_entry {N = N} (string t) (string t')
        ≡ ite (t ≟ t') (string t) (array (cons (string t) (cons (string t') nil)))
  unfolding merge_entry merge_pair items
  string_entry t t' = ground (arith, alike_strings t t')

  desc_entry :
      (d d' : Option String)
      → read_optional (some (merge_entry {N = N} (optional d) (optional d')))
        ≡ (if is_kept d d' then some d else none)
  unfolding merge_entry merge_pair alike Discriminant-discrete
  desc_entry none none = ground arith
  desc_entry none (some d') = refl
  desc_entry (some d) none = refl
  desc_entry (some d) (some d') = ground (arith, string_entry d d')

  -- Of the properties of a link that were saved over earlier ones, the earlier ones are read
  -- back, not the new ones, where the titles are the same and the descriptions are the same or
  -- not both there, and nothing can be read otherwise.
  pub of_value-merge :
      (old new : LinkProperties)
      → of_value (merge (to_value {N = N} old) (to_value new)) ≡ (
          if ite (old.title ≟ new.title) true false && is_kept old.desc new.desc
          then some (record { title = old.title; desc = old.desc })
          else none)
  unfolding get entries String-discrete
  of_value-merge old new =
      ap of_value (merged_fields old.title new.title (optional old.desc) (optional new.desc))
      ∙ ground (arith, string_entry old.title new.title, desc_entry old.desc new.desc)
