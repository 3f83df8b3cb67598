-- ===== src/Index/Sorted.antt =====
-- The order in which `store` of fs-index/src/index.rs writes the entries.
use ark_rust.Base.{
  ◌≟◌, string_eq, none, some, [], ◌∷◌, ◌≡◌, refl, ◌∙◌, All, ite, arith, inl, inr, Bool-cases,
}
use ark_rust.Map.{Map, get}
use ark_rust.Map.Keys.{IsUnique}
use ark_rust.Index.State.{FilePath, IndexEntry}
use ark_rust.Index.Store.{Printer, le_entry, place, sort_by_key}

module _ {ResourceId : Type 0} (printer : Printer ResourceId) where
  get-place :
      (p q : FilePath) (entry : IndexEntry ResourceId) (m : Map FilePath (IndexEntry ResourceId))
      → get q m ≡ none
      → get p (place printer q entry m) ≡ ite (q ≟ p) (some entry) (get p m)
  unfolding place get
  get-place p q entry [] h = refl
  get-place p q entry ((k, other) ∷ m) h = elim (Bool-cases (le_entry printer entry other)) [
    | inl le ↦ rw (le, place) refl
    | inr gt ↦ rw (gt, place) (ground (arith, get-place p q entry m))
  ]

  place-All :
      (P : FilePath → IndexEntry ResourceId → Type 0) (q : FilePath) (entry : IndexEntry ResourceId)
      (m : Map FilePath (IndexEntry ResourceId))
      → P q entry
      → All (λ r. P r.0 r.1) m
      → All (λ r. P r.0 r.1) (place printer q entry m)
  unfolding place
  place-All P q entry [] h k = (h, tt)
  place-All P q entry ((p, other) ∷ m) h k = elim (Bool-cases (le_entry printer entry other)) [
    | inl le ↦ rw (le, place) (h, k)
    | inr gt ↦ rw (gt, place) (k.0, place-All P q entry m h k.1)
  ]

  place-IsUnique :
      (q : FilePath) (entry : IndexEntry ResourceId) (m : Map FilePath (IndexEntry ResourceId))
      → get q m ≡ none
      → IsUnique m
      → IsUnique (place printer q entry m)
  unfolding place get
  place-IsUnique q entry [] h u = (refl, tt)
  place-IsUnique q entry ((p, other) ∷ m) h u = elim (Bool-cases (le_entry printer entry other)) [
    | inl le ↦ rw (le, place) (h, u)
    | inr gt ↦
        rw (gt, place)
          (ground (arith, get-place p q entry m), place-IsUnique q entry m (ground arith) u.1)
  ]

  pub get-sort_by_key :
      (p : FilePath) (m : Map FilePath (IndexEntry ResourceId))
      → IsUnique m
      → get p (sort_by_key printer m) ≡ get p m
  unfolding sort_by_key get
  get-sort_by_key p [] u = refl
  get-sort_by_key p ((q, entry) ∷ m) u =
      get-place p q entry (sort_by_key printer m) (get-sort_by_key q m u.1 ∙ u.0)
      ∙ ground (arith, get-sort_by_key p m u.1)

  pub sort_by_key-IsUnique :
      (m : Map FilePath (IndexEntry ResourceId)) → IsUnique m → IsUnique (sort_by_key printer m)
  unfolding sort_by_key
  sort_by_key-IsUnique [] u = tt
  sort_by_key-IsUnique ((q, entry) ∷ m) u =
      place-IsUnique q entry (sort_by_key printer m) (get-sort_by_key q m u.1 ∙ u.0)
        (sort_by_key-IsUnique m u.1)

  pub sort_by_key-All :
      (P : FilePath → IndexEntry ResourceId → Type 0) (m : Map FilePath (IndexEntry ResourceId))
      → All (λ r. P r.0 r.1) m
      → All (λ r. P r.0 r.1) (sort_by_key printer m)
  unfolding sort_by_key
  sort_by_key-All P [] h = tt
  sort_by_key-All P ((q, entry) ∷ m) h =
      place-All P q entry (sort_by_key printer m) h.0 (sort_by_key-All P m h.1)
