-- ===== src/Index/Rest.antt =====
-- `update_all` of fs-index/src/index.rs where nothing on the disk has changed.
use ark_rust.Base.{
  Eq, string_eq, ◌+◌, ◌≤◌, ◌<◌, ◌≡◌, ◌≢◌, refl, none, some, arith, inl, inr, Option-cases, ◌∙◌, ap,
  sym, List, [], ◌∷◌,
}
use ark_rust.Error.{panic}
use ark_rust.Map.{Map, get}
use ark_rust.Index.State.{FilePath, IndexEntry, ResourceIndex, insert_entry}
use ark_rust.Index.Scan.{
  Disk, DirEntry, discover_paths, scan_found, scan_entry, scan_entries, insert_each, empty_index,
  build,
}
use ark_rust.Index.Build.{scanned, path2id-build}
use ark_rust.Index.Update.{update_all, was_updated, curr_modified, duration_since}
use ark_rust.Index.Refresh.{updated_paths, path2id-update_all, entry_after, known}
use ark_rust.Index.Clock.{GoesForward, stops_iff, update_all-panic_iff}

module _ {ResourceId : Type 0} ⦃e : Eq ResourceId⦄ (disk : Disk ResourceId) where
  -- The index has what a scan of the disk gives, with times that are up to a millisecond earlier.
  pub record IsSettled (y : ResourceIndex ResourceId) : Type 0 where
    pub gone : (p : FilePath) → get p (discover_paths disk y.root) ≡ none → get p y.path2id ≡ none
    pub failed :
        (p : FilePath) (found : DirEntry)
        → get p (discover_paths disk y.root) ≡ some found
        → scan_found disk p found ≡ none
        → get p y.path2id ≡ none
    pub fresh :
        (p : FilePath) (found : DirEntry) (en : IndexEntry ResourceId)
        → get p (discover_paths disk y.root) ≡ some found
        → scan_found disk p found ≡ some en
        → (our : IndexEntry ResourceId) × (get p y.path2id ≡ some our)
          × (our.modified ≤ en.modified)
          × (en.modified < our.modified + 1_000_000)

  scan-modified :
      (p : FilePath) (found : DirEntry) (en : IndexEntry ResourceId)
      → scan_found disk p found ≡ some en
      → curr_modified found ≡ some en.modified
  unfolding scan_found scan_entry curr_modified
  scan-modified p found en scans = ground arith

  module _ (y : ResourceIndex ResourceId) (settled : IsSettled y) where
    settled-GoesForward : GoesForward disk y
    settled-GoesForward p found ours now there has timed =
        elim (Option-cases (scan_found disk p found)) [
          | inl fails ↦ absurd (ground (arith, settled.failed p found there fails))
          | inr (en, scans) ↦
              let (our, is, le, lt) = settled.fresh p found en there scans in
              ground (arith, scan-modified p found en scans)
        ]

    -- What a path shall map into is what it maps into.
    entry_after_settled :
        (ids : Map ResourceId FilePath) (p : FilePath)
        → entry_after disk y ids p (get p (discover_paths disk y.root)) (get p y.path2id)
          ≡ get p y.path2id
    unfolding was_updated duration_since
    entry_after_settled ids p = elim (Option-cases (get p (discover_paths disk y.root))) [
      | inl gone ↦ ground (arith, settled.gone p gone)
      | inr (found, there) ↦ elim (Option-cases (scan_found disk p found)) [
        | inl fails ↦ ground (arith, settled.failed p found there fails)
        | inr (en, scans) ↦
            let (our, is, le, lt) = settled.fresh p found en there scans in
            ground (arith, scan-modified p found en scans)
      ]
    ]

    -- An update does not panic and leaves each path with its entry.
    pub update_all-settled :
        ((update_all disk y).0 ≢ panic)
        × ((p : FilePath) → get p (update_all disk y).1.path2id ≡ get p y.path2id)
    update_all-settled = (
      (update_all-panic_iff disk y).1 settled-GoesForward,
      λ p. elim (Option-cases (updated_paths disk y)) [
        | inl stops ↦ absurd ((stops_iff disk y).1 settled-GoesForward stops)
        | inr (updated, runs) ↦
            path2id-update_all disk y updated runs p
            ∙ entry_after_settled (known disk y updated runs) p
      ],
    )

  -- An index that has what a build gives, with times that are up to a millisecond earlier.
  pub like_build-IsSettled :
      (root : FilePath) (y : ResourceIndex ResourceId)
      → y.root ≡ root
      → ((p : FilePath) → get p (build disk root).path2id ≡ none → get p y.path2id ≡ none)
      → ((p : FilePath) (en : IndexEntry ResourceId)
          → get p (build disk root).path2id ≡ some en
          → (our : IndexEntry ResourceId) × (get p y.path2id ≡ some our)
            × (our.modified ≤ en.modified)
            × (en.modified < our.modified + 1_000_000))
      → IsSettled y
  like_build-IsSettled root y at_root gone has = record {
    gone = λ p h. gone p (
        path2id-build disk root p
        ∙ ap (scanned disk p) (ap (λ r. get p (discover_paths disk r)) (sym at_root) ∙ h));
    failed = λ p found h k. gone p (
        path2id-build disk root p
        ∙ ap (scanned disk p) (ap (λ r. get p (discover_paths disk r)) (sym at_root) ∙ h)
        ∙ k);
    fresh = λ p found en h k. has p en (
        path2id-build disk root p
        ∙ ap (scanned disk p) (ap (λ r. get p (discover_paths disk r)) (sym at_root) ∙ h)
        ∙ k);
  }

  insert_each-root :
      (l : List (FilePath × IndexEntry ResourceId)) (x : ResourceIndex ResourceId)
      → (insert_each l x).root ≡ x.root
  unfolding insert_each insert_entry
  insert_each-root [] x = refl
  insert_each-root ((path, entry) ∷ l) x =
      insert_each-root l (insert_entry path entry x) ∙ ground arith

  pub build-root : (root : FilePath) → (build disk root).root ≡ root
  unfolding build
  build-root root =
      insert_each-root (scan_entries disk (discover_paths disk root)) (empty_index root)

  -- An update_all straight after a build, with nothing changed on the disk, does not panic and
  -- leaves each path with its entry.
  pub update_all-build :
      (root : FilePath)
      → ((update_all disk (build disk root)).0 ≢ panic)
        × ((p : FilePath)
            → get p (update_all disk (build disk root)).1.path2id ≡ get p (build disk root).path2id)
  update_all-build root = update_all-settled (build disk root) (
      like_build-IsSettled root (build disk root) (build-root root) (λ p h. h)
        (λ p en h. (en, h, omega arith, omega arith)))
