-- ===== src/Index/Build.antt =====
-- `build` of fs-index/src/index.rs, which indexes a folder from scratch.
use ark_rust.Base.{Eq, ◌≟◌, string_eq, ◌≡◌, refl, ◌∙◌, Option, none, some, List, [], ◌∷◌, arith}
use ark_rust.Map.{over, Map, get, insert, get-insert}
use ark_rust.Map.Keys.{AreApart, IsUnique, extend-IsUnique, get-extend_empty}
use ark_rust.Index.State.{FilePath, IndexEntry, ResourceIndex, insert_entry}
use ark_rust.Index.Scan.{
  Disk, DirEntry, discover_paths, scan_entries, scan_each, scan_found, insert_each, empty_index,
  build,
}
use ark_rust.Index.Tracking.{IsConsistent, count_id}
use ark_rust.Index.Insert.{insert_entry-IsConsistent, path2id-insert_entry}

module _ {ResourceId : Type 0} (disk : Disk ResourceId) where
  abbrev pub scanned : FilePath → Option DirEntry → Option (IndexEntry ResourceId)
  scanned p none = none
  scanned p (some entry) = scan_found disk p entry

  get-scan_each :
      (p : FilePath) (m : Map FilePath DirEntry)
      → IsUnique m
      → get p (scan_each disk m) ≡ scanned p (get p m)
  unfolding get scan_each
  get-scan_each p [] u = refl
  get-scan_each p ((q, entry) ∷ m) u = elim (q ≟ p) [
    | yes same ↦ ground (arith, get-scan_each p m u.1)
    | no apart ↦ ground (arith, get-scan_each p m u.1)
  ]

  scan_each-IsUnique : (m : Map FilePath DirEntry) → IsUnique m → IsUnique (scan_each disk m)
  unfolding scan_each
  scan_each-IsUnique [] u = tt
  scan_each-IsUnique ((q, entry) ∷ m) u =
      ground (arith, scan_each-IsUnique m u.1, get-scan_each q m u.1)

  pub get-scan_entries :
      (p : FilePath) (m : Map FilePath DirEntry)
      → IsUnique m
      → get p (scan_entries disk m) ≡ scanned p (get p m)
  unfolding scan_entries
  get-scan_entries p m u =
      get-extend_empty p (scan_each disk m) (scan_each-IsUnique m u) ∙ get-scan_each p m u

  pub scan_entries-IsUnique : (m : Map FilePath DirEntry) → IsUnique (scan_entries disk m)
  unfolding scan_entries
  scan_entries-IsUnique m = extend-IsUnique [] (scan_each disk m) tt

  pub discover_paths-IsUnique : (root : FilePath) → IsUnique (discover_paths disk root)
  unfolding discover_paths
  discover_paths-IsUnique root = extend-IsUnique [] _ tt

module _ {ResourceId : Type 0} ⦃e : Eq ResourceId⦄ where
  AreApart-insert :
      (p : FilePath) (en : IndexEntry ResourceId) (l : List (FilePath × IndexEntry ResourceId))
      (m : Map FilePath (IndexEntry ResourceId))
      → get p l ≡ none
      → AreApart l m
      → AreApart l (insert p en m)
  unfolding get
  AreApart-insert p en [] m h n = tt
  AreApart-insert p en ((q, w) ∷ l) m h n =
      ground (arith, AreApart-insert p en l m, get-insert p q en m)

  pub insert_each-IsConsistent :
      (l : List (FilePath × IndexEntry ResourceId)) (x : ResourceIndex ResourceId)
      → IsUnique l
      → AreApart l x.path2id
      → IsConsistent x
      → IsConsistent (insert_each l x)
  unfolding insert_each
  insert_each-IsConsistent [] x u n c = c
  insert_each-IsConsistent ((p, en) ∷ l) x u n c =
      insert_each-IsConsistent l (insert_entry p en x) u.1
        (rw (path2id-insert_entry p en x) (AreApart-insert p en l x.path2id u.0 n.1))
        (insert_entry-IsConsistent p en x n.0 c)

  pub path2id-insert_each :
      (p : FilePath) (l : List (FilePath × IndexEntry ResourceId)) (x : ResourceIndex ResourceId)
      → IsUnique l
      → get p (insert_each l x).path2id ≡ over (get p l) (get p x.path2id)
  unfolding insert_each get
  path2id-insert_each p [] x u = refl
  path2id-insert_each p ((q, en) ∷ l) x u = ground (
    arith,
    path2id-insert_each p l (insert_entry q en x) u.1,
    get-insert q p en x.path2id,
    path2id-insert_entry q en x,
  )

  pub empty_index-IsConsistent :
      (root : FilePath) → IsConsistent (empty_index {ResourceId = ResourceId} root)
  unfolding get count_id
  empty_index-IsConsistent root = record {
    unique = tt;
    counted = λ i. refl;
    absent = λ i h. refl;
    located = λ i p h. cc;
  }

  pub all-AreApart : (l : List (FilePath × IndexEntry ResourceId)) → AreApart l []
  unfolding get
  all-AreApart [] = tt
  all-AreApart (r ∷ l) = (refl, all-AreApart l)

  -- An index built from scratch is consistent whatever the walk finds.
  pub build-IsConsistent :
      (disk : Disk ResourceId) (root : FilePath) → IsConsistent (build disk root)
  unfolding build
  build-IsConsistent disk root =
      insert_each-IsConsistent _ (empty_index root)
        (scan_entries-IsUnique disk (discover_paths disk root)) (all-AreApart _)
        (empty_index-IsConsistent root)

  -- build indexes a path exactly if it is discovered and scanned, with the entry of the scan.
  pub path2id-build :
      (disk : Disk ResourceId) (root p : FilePath)
      → get p (build disk root).path2id ≡ scanned disk p (get p (discover_paths disk root))
  unfolding build get
  path2id-build disk root p =
      path2id-insert_each p _ (empty_index root)
        (scan_entries-IsUnique disk (discover_paths disk root))
      ∙ ground (
        arith,
        get-scan_entries disk p (discover_paths disk root) (discover_paths-IsUnique disk root),
      )
