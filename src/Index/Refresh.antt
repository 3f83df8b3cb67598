-- ===== src/Index/Refresh.antt =====
-- What `update_all` of fs-index/src/index.rs leaves in `path2id`, path by path.
use ark_rust.Base.{
  Eq, string_eq, Bool, true, false, not, ◌≡◌, ◌≢◌, ap, ◌∙◌, Option, none, some, List, [], ◌++◌,
  arith, if◌then◌else◌, ◌⊎◌, inl, inr, Option-cases,
}
use ark_rust.Map.{Map, get, contains, over, extend}
use ark_rust.Map.Keys.{AreApart, AreApart-of, keys, IsUnique, extend-IsUnique, get-extend_empty}
use ark_rust.Index.State.{FilePath, IndexEntry, ResourceIndex}
use ark_rust.Index.Scan.{Disk, DirEntry, discover_paths, scan_entries, scan_found, insert_each}
use ark_rust.Index.Build.{
  scanned, get-scan_entries, scan_entries-IsUnique, discover_paths-IsUnique, path2id-insert_each,
}
use ark_rust.Index.Update.{
  filter_paths, select, filter_entries, unknown_ids, drop_paths, is_updated, was_updated,
  preserved_paths, update_all,
}
use ark_rust.Index.Select.{
  is_some, contains-keys, get-append, append-IsUnique, contains-append, contains-filter_paths,
  get-select, pass, get-filter_entries, filter_entries-IsUnique, filter_entries-tested,
  select-IsUnique, unknown, get-unknown_ids, unknown_ids-IsUnique, path2id-drop_paths,
}

module _ {ResourceId : Type 0} ⦃e : Eq ResourceId⦄ (disk : Disk ResourceId)
    (x : ResourceIndex ResourceId) where
  abbrev pub updated_paths : Option (Map FilePath DirEntry)
  updated_paths =
      filter_entries (is_updated x (preserved_paths disk x)) (discover_paths disk x.root)

  abbrev pub is_new : FilePath → Bool
  is_new p = not (contains p (preserved_paths disk x))

  abbrev pub created_paths : Map FilePath DirEntry
  created_paths = select is_new (discover_paths disk x.root)

  -- The index once the paths that are gone and the updated ones are dropped.
  abbrev pub dropped : Map FilePath DirEntry → List ResourceId × ResourceIndex ResourceId
  dropped updated = drop_paths (filter_paths is_new (keys x.path2id) ++ keys updated) ([], x)

  -- What a path shall map into, from what the disk has by it and what the index had.
  abbrev pub entry_after :
      Map ResourceId FilePath
      → FilePath
      → Option DirEntry
      → Option (IndexEntry ResourceId)
      → Option (IndexEntry ResourceId)
  entry_after known p none our = none
  entry_after known p (some found) none = unknown known (scan_found disk p found)
  entry_after known p (some found) (some our) = elim (was_updated x p found) [
    | none ↦ none
    | some true ↦ unknown known (scan_found disk p found)
    | some false ↦ some our
  ]

  pub contains-preserved :
      (p : FilePath)
      → contains p (preserved_paths disk x) ≡ (
          if is_some (get p x.path2id) then is_some (get p (discover_paths disk x.root)) else false)
  contains-preserved p = ground (
    arith,
    contains-filter_paths p (λ q. contains q (keys x.path2id)) (keys (discover_paths disk x.root)),
    contains-keys p x.path2id,
    contains-keys p (discover_paths disk x.root),
  )

  module _ (updated : Map FilePath DirEntry) (stops : updated_paths ≡ some updated) where
    abbrev pub known : Map ResourceId FilePath
    known = (dropped updated).1.id2path

    abbrev pub both : Map FilePath (IndexEntry ResourceId)
    both = scan_entries disk updated ++ scan_entries disk created_paths

    get-updated :
        (p : FilePath)
        → get p updated
          ≡ pass (is_updated x (preserved_paths disk x)) p (get p (discover_paths disk x.root))
    get-updated p =
        get-filter_entries p _ (discover_paths disk x.root) updated
          (discover_paths-IsUnique disk x.root) stops

    updated-IsUnique : IsUnique updated
    updated-IsUnique =
        filter_entries-IsUnique _ (discover_paths disk x.root) updated
          (discover_paths-IsUnique disk x.root) stops

    created-IsUnique : IsUnique created_paths
    created-IsUnique = select-IsUnique is_new _ (discover_paths-IsUnique disk x.root)

    apart : (p : FilePath) → (get p updated ≡ none) ⊎ (get p created_paths ≡ none)
    unfolding is_updated
    apart p = ground (arith, get-updated p, get-select p is_new (discover_paths disk x.root))

    both-IsUnique : IsUnique both
    both-IsUnique =
        append-IsUnique _ _ (scan_entries-IsUnique disk updated)
          (scan_entries-IsUnique disk created_paths)
          (AreApart-of _ _ (scan_entries-IsUnique disk updated) λ p. ground (
            arith,
            apart p,
            get-scan_entries disk p updated updated-IsUnique,
            get-scan_entries disk p created_paths created-IsUnique,
          ))

    abbrev pub added : Map FilePath (IndexEntry ResourceId)
    added = extend [] (unknown_ids known both)

    pub added-IsUnique : IsUnique added
    added-IsUnique = extend-IsUnique [] (unknown_ids known both) tt

    get-added :
        (p : FilePath)
        → get p added
          ≡ unknown known
              (over (scanned disk p (get p updated)) (scanned disk p (get p created_paths)))
    get-added p =
        get-extend_empty p (unknown_ids known both) (unknown_ids-IsUnique known both both-IsUnique)
        ∙ get-unknown_ids p known both both-IsUnique
        ∙ ap (unknown known) (
            ground (
              arith,
              get-append p (scan_entries disk updated) (scan_entries disk created_paths),
              get-scan_entries disk p updated updated-IsUnique,
              get-scan_entries disk p created_paths created-IsUnique,
            ))

    pub update_all-runs : (update_all disk x).1 ≡ insert_each added (dropped updated).1
    unfolding update_all
    update_all-runs = rw (stops, update_all)

    get-dropped :
        (p : FilePath)
        → get p (dropped updated).1.path2id
          ≡ (if is_new p then none else if is_some (get p updated) then none else get p x.path2id)
    get-dropped p =
        path2id-drop_paths p (filter_paths is_new (keys x.path2id) ++ keys updated) ([], x)
        ∙ ground (
          arith,
          contains-append p (filter_paths is_new (keys x.path2id)) (keys updated),
          contains-filter_paths p is_new (keys x.path2id),
          contains-keys p x.path2id,
          contains-keys p updated,
        )

    tested :
        (p : FilePath) (found : DirEntry)
        → get p (discover_paths disk x.root) ≡ some found
        → is_updated x (preserved_paths disk x) p found ≢ none
    tested p found there =
        filter_entries-tested p _ (discover_paths disk x.root) updated found stops there

    -- Where no clock of the disk went back, update_all leaves by each path the entry that the
    -- path calls for: none if the path is gone; the one of before if its content was not touched;
    -- for a new or touched path the entry of a fresh scan, and no entry if the scan fails or its
    -- id is still known once the paths that are gone or touched are dropped.
    pub path2id-update_all :
        (p : FilePath)
        → get p (update_all disk x).1.path2id
          ≡ entry_after known p (get p (discover_paths disk x.root)) (get p x.path2id)
    unfolding is_updated
    path2id-update_all p =
        ap (λ (y : ResourceIndex ResourceId). get p y.path2id) update_all-runs
        ∙ path2id-insert_each p added (dropped updated).1 added-IsUnique
        ∙ elim (Option-cases (get p (discover_paths disk x.root))) [
          | inl gone ↦ ground (
            arith,
            get-added p,
            get-dropped p,
            get-updated p,
            get-select p is_new (discover_paths disk x.root),
            contains-preserved p,
          )
          | inr (found, there) ↦ ground (
            arith,
            get-added p,
            get-dropped p,
            get-updated p,
            get-select p is_new (discover_paths disk x.root),
            contains-preserved p,
            tested p found there,
          )
        ]

    pub added-apart : AreApart added (dropped updated).1.path2id
    added-apart = AreApart-of _ _ added-IsUnique (λ p. ground (
      arith,
      get-added p,
      get-dropped p,
      apart p,
      get-select p is_new (discover_paths disk x.root),
    ))
