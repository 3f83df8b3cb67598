-- ===== src/Index/Tracking.antt =====
-- The invariant of the index: `id2path` and `collisions` agree with the entries of `path2id`.
use ark_rust.Base.{
  Eq, ◌≟◌, string_eq, ℕ, suc, ◌+◌, ◌<◌, ◌≡◌, refl, ite, none, some, [], ◌∷◌, arith, ltb,
  if◌then◌else◌,
}
use ark_rust.Map.{Map, get, insert, remove}
use ark_rust.Map.Keys.{IsUnique}
use ark_rust.Index.State.{FilePath, IndexEntry, ResourceIndex, find_path}

module _ {ResourceId : Type 0} ⦃e : Eq ResourceId⦄ where
  -- How many paths have the id.
  unfoldable pub count_id : ResourceId → Map FilePath (IndexEntry ResourceId) → ℕ
  count_id i [] = 0
  count_id i ((p, en) ∷ m) = ite (en.id ≟ i) (suc (count_id i m)) (count_id i m)

  abbrev pub one_if : ResourceId → ResourceId → ℕ
  one_if i j = ite (i ≟ j) 1 0

  -- The path maps into the id.
  abbrev pub Holds : FilePath → ResourceId → Map FilePath (IndexEntry ResourceId) → Type 0
  Holds p i m = (en : IndexEntry ResourceId) × (get p m ≡ some en) × (en.id ≡ i)

  pub record IsConsistent (x : ResourceIndex ResourceId) : Type 0 where
    pub unique : IsUnique x.path2id
    -- exactly the ids with two paths or more are counted, and counted right
    pub counted :
        (i : ResourceId)
        → get i x.collisions
          ≡ (if ltb 1 (count_id i x.path2id) then some (count_id i x.path2id) else none)
    -- an id with no path is the id of no entry
    pub absent : (i : ResourceId) → get i x.id2path ≡ none → count_id i x.path2id ≡ 0
    -- the path of an id has that id
    pub located : (i : ResourceId) (p : FilePath) → get i x.id2path ≡ some p → Holds p i x.path2id

  pub count-insert :
      (i : ResourceId) (p : FilePath) (en : IndexEntry ResourceId)
      (m : Map FilePath (IndexEntry ResourceId))
      → get p m ≡ none
      → count_id i (insert p en m) ≡ one_if en.id i + count_id i m
  unfolding count_id get insert
  count-insert i p en [] h = ground arith
  count-insert i p en ((q, w) ∷ m) h = ground (arith, count-insert i p en m)

  pub count-remove_absent :
      (i : ResourceId) (p : FilePath) (m : Map FilePath (IndexEntry ResourceId))
      → get p m ≡ none
      → count_id i (remove p m) ≡ count_id i m
  unfolding count_id get remove
  count-remove_absent i p [] h = refl
  count-remove_absent i p ((q, w) ∷ m) h = ground (arith, count-remove_absent i p m)

  pub count-remove :
      (i : ResourceId) (p : FilePath) (en : IndexEntry ResourceId)
      (m : Map FilePath (IndexEntry ResourceId))
      → IsUnique m
      → get p m ≡ some en
      → count_id i m ≡ one_if en.id i + count_id i (remove p m)
  unfolding count_id get remove
  count-remove i p en [] u h = ground arith
  count-remove i p en ((q, w) ∷ m) u h =
      ground (arith, count-remove i p en m u.1, count-remove_absent i p m)

  pub count_pos :
      (i : ResourceId) (p : FilePath) (m : Map FilePath (IndexEntry ResourceId))
      → Holds p i m
      → 0 < count_id i m
  unfolding count_id get
  count_pos i p [] h = ground arith
  count_pos i p ((q, w) ∷ m) (en, h, k) = elim (q ≟ p) [
    | yes here ↦ ground arith
    | no there ↦ ground (arith, count_pos i p m (en, ground arith, k))
  ]

  pub find_path-none :
      (i : ResourceId) (m : Map FilePath (IndexEntry ResourceId))
      → find_path i m ≡ none
      → count_id i m ≡ 0
  unfolding count_id find_path
  find_path-none i [] h = refl
  find_path-none i ((q, w) ∷ m) h = ground (arith, find_path-none i m)

  pub find_path-Holds :
      (i : ResourceId) (p : FilePath) (m : Map FilePath (IndexEntry ResourceId))
      → IsUnique m
      → find_path i m ≡ some p
      → Holds p i m
  unfolding find_path get
  find_path-Holds i p [] u h = ground arith
  find_path-Holds i p ((q, w) ∷ m) u h = elim (w.id ≟ i) [
    | yes here ↦ (w, ground arith, here)
    | no there ↦ let (en, g, k) = find_path-Holds i p m u.1 (ground arith) in (en, ground arith, k)
  ]
