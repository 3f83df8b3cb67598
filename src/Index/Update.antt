-- ===== src/Index/Update.antt =====
-- fs-index/src/index.rs: `update_all`, which brings the whole index up to date.
use mathlib.Core.Option
use ark_rust.Base.{
  Eq, string_eq, ℕ, ◌-◌, Bool, true, false, not, Option, none, some, List, [], ◌∷◌, ◌++◌, ltb, leb,
  if◌then◌else◌,
}
use ark_rust.Error.{ok, returned, panic, to_option}
use ark_rust.Map
use ark_rust.Map.{Map, contains, add}
use ark_rust.Map.Keys.{keys}
use ark_rust.Index.State.{FilePath, SystemTime, IndexEntry, ResourceIndex, IndexUpdate, Reply}
use ark_rust.Index.Scan.{Disk, DirEntry, discover_paths, scan_entries, insert_each}

-- `Duration::from_millis(1)`, in nanoseconds.
abbrev pub resource_updated_threshold : ℕ
resource_updated_threshold = 1_000_000

-- `current.duration_since(previous)`; `none` is its `Err`, which `update_all` unwraps.
unfoldable pub duration_since : SystemTime → SystemTime → Option ℕ
duration_since current previous = if ltb current previous then none else some (current - previous)

-- The modification time of a discovered entry, where it can be had.
unfoldable pub curr_modified : DirEntry → Option SystemTime
curr_modified dir_entry = elim (to_option dir_entry.metadata) [
  | none ↦ none
  | some metadata ↦ to_option metadata.modified
]

unfoldable pub filter_paths : (FilePath → Bool) → List FilePath → List FilePath
filter_paths keep [] = []
filter_paths keep (p ∷ ps) = let rest = filter_paths keep ps in if keep p then p ∷ rest else rest

unfoldable pub select : (FilePath → Bool) → Map FilePath DirEntry → Map FilePath DirEntry
select keep [] = []
select keep ((p, entry) ∷ m) =
    let rest = select keep m in if keep p then (p, entry) ∷ rest else rest

-- The entries of `curr_entries` that pass a test; `none` is a panic of the test.
unfoldable pub filter_entries :
    (FilePath → DirEntry → Option Bool) → Map FilePath DirEntry → Option (Map FilePath DirEntry)
filter_entries keep [] = some []
filter_entries keep ((p, entry) ∷ m) =
    let rest = filter_entries keep m in
    elim (keep p entry) [
      | none ↦ none
      | some false ↦ rest
      | some true ↦ elim rest [ none ↦ none | some l ↦ some ((p, entry) ∷ l) ]
    ]

module _ {ResourceId : Type 0} ⦃e : Eq ResourceId⦄ where
  -- Whether a preserved path was updated since it was indexed; `none` is a panic.
  unfoldable pub was_updated : ResourceIndex ResourceId → FilePath → DirEntry → Option Bool
  was_updated x path dir_entry = elim (Map.get path x.path2id) [
    | none ↦ none
    | some our_entry ↦ elim (curr_modified dir_entry) [
      | none ↦ some false
      | some now ↦ elim (duration_since now our_entry.modified) [
        | none ↦ none
        | some elapsed ↦ some (leb resource_updated_threshold elapsed)
      ]
    ]
  ]

  -- One round of the loop over the paths that are gone or updated, with the ids deleted so far.
  unfoldable pub drop_path :
      FilePath
      → List ResourceId × ResourceIndex ResourceId
      → List ResourceId × ResourceIndex ResourceId
  drop_path path (deleted, x) = elim (Map.get path x.path2id) [
    | none ↦ (deleted, x)
    | some entry ↦
        let m = Map.remove path x.path2id in
        let k = Option.get_or (Map.get entry.id x.collisions) 1 in
        let cs = Map.remove entry.id x.collisions in
        if ltb 1 k
        then (deleted, record x { path2id = m; collisions = Map.insert entry.id (k - 1) cs })
        else (
          add entry.id deleted,
          record x { path2id = m; collisions = cs; id2path = Map.remove entry.id x.id2path },
        )
  ]

  unfoldable pub drop_paths :
      List FilePath
      → List ResourceId × ResourceIndex ResourceId
      → List ResourceId × ResourceIndex ResourceId
  unfolding drop_path
  drop_paths [] s = s
  drop_paths (p ∷ ps) s = drop_paths ps (drop_path p s)

  -- `.filter(|(_, entry)| !self.id2path.contains_key(&entry.id))`
  unfoldable pub unknown_ids :
      Map ResourceId FilePath
      → List (FilePath × IndexEntry ResourceId)
      → List (FilePath × IndexEntry ResourceId)
  unknown_ids known [] = []
  unknown_ids known ((p, entry) ∷ l) =
      let rest = unknown_ids known l in
      elim (Map.get entry.id known) [ none ↦ (p, entry) ∷ rest | some _ ↦ rest ]

  unfoldable pub ids_of : Map FilePath (IndexEntry ResourceId) → Map FilePath ResourceId
  ids_of [] = []
  ids_of ((p, entry) ∷ l) = (p, entry.id) ∷ ids_of l

  -- `update_all` once the created and the updated paths are known.
  unfoldable pub apply_update :
      Disk ResourceId
      → List FilePath
      → Map FilePath DirEntry
      → Map FilePath DirEntry
      → ResourceIndex ResourceId
      → Reply ResourceId (IndexUpdate ResourceId)
  unfolding drop_paths unknown_ids scan_entries insert_each ids_of
  apply_update disk vanished updated created x =
      let (deleted, y) = drop_paths (vanished ++ keys updated) ([], x) in
      let added =
        Map.extend []
          (unknown_ids y.id2path (scan_entries disk updated ++ scan_entries disk created)) in
      (returned (ok (record { deleted = deleted; added = ids_of added })), insert_each added y)

  -- The test of the filter for `updated_paths`.
  unfoldable pub is_updated :
      ResourceIndex ResourceId → List FilePath → FilePath → DirEntry → Option Bool
  unfolding was_updated
  is_updated x preserved p entry =
      if not (contains p preserved) then some false else was_updated x p entry

  abbrev pub preserved_paths : Disk ResourceId → ResourceIndex ResourceId → List FilePath
  preserved_paths disk x =
      filter_paths (λ p. contains p (keys x.path2id)) (keys (discover_paths disk x.root))

  unfoldable pub update_all :
      Disk ResourceId → ResourceIndex ResourceId → Reply ResourceId (IndexUpdate ResourceId)
  unfolding apply_update filter_entries filter_paths is_updated select
  update_all disk x =
      let curr_entries = discover_paths disk x.root in
      let preserved = preserved_paths disk x in
      let is_new = λ (p : FilePath). not (contains p preserved) in
      elim (filter_entries (is_updated x preserved) curr_entries) [
        | none ↦ (panic, x)
        | some updated ↦
            apply_update disk (filter_paths is_new (keys x.path2id)) updated
              (select is_new curr_entries) x
      ]
