-- ===== src/Index/Replace.antt =====
-- `update_one` of fs-index/src/index.rs on a consistent index.
use ark_rust.Base.{
  Eq, ◌≟◌, string_eq, ◌≡◌, ◌≢◌, refl, ap, ite, true, false, none, some, [], ◌∷◌, arith, inl, inr,
  ◌⊎◌,
}
use ark_rust.Error.{ArklibError, Result, IoError, ok, err, returned, panic}
use ark_rust.Map.{get, insert, get-insert, get-remove, get-remove_self}
use ark_rust.Index.State.{
  FilePath, IndexEntry, ResourceIndex, IndexUpdate, Profile, Reply, insert_entry, forget_path,
}
use ark_rust.Index.Scan.{Disk, Metadata, scan_entry}
use ark_rust.Index.Single.{update_one, replace_entry, then_insert}
use ark_rust.Index.Tracking.{IsConsistent, Holds}
use ark_rust.Index.Insert.{insert_entry-IsConsistent, path2id-insert_entry}
use ark_rust.Index.Forget.{
  Misplaced, Misplaced-cases, forget_path-IsConsistent, forget_path-panic, forget_path_lem,
}

-- A call that did not panic and left a consistent index.
abbrev pub IsSound :
    {ResourceId : Type 0} ⦃e : Eq ResourceId⦄ → Reply ResourceId (IndexUpdate ResourceId) → Type 0
IsSound r = (r.0 ≢ panic) × IsConsistent r.1

module _ {ResourceId : Type 0} ⦃e : Eq ResourceId⦄ where
  then_insert-panic :
      (path : FilePath) (entry : IndexEntry ResourceId)
      (r : Reply ResourceId (IndexUpdate ResourceId))
      → r.0 ≡ panic
      → (then_insert path entry r).0 ≡ panic
  unfolding then_insert
  then_insert-panic path entry (panic, x) h = refl
  then_insert-panic path entry (returned (ok update), x) h = cc
  then_insert-panic path entry (returned (err cause), x) h = cc

  module _ (b : Profile) (path : FilePath) (old_id : ResourceId) (entry : IndexEntry ResourceId)
      (x : ResourceIndex ResourceId) (c : IsConsistent x) (held : Holds path old_id x.path2id)
      (allowed : (b.debug_assertions ≡ false) ⊎ (get old_id x.id2path ≡ some path)) where
    -- The entry of one path is exchanged for another.
    abbrev pub Exchanged : ResourceIndex ResourceId → Type 0
    Exchanged y = (q : FilePath) → get q y.path2id ≡ ite (path ≟ q) (some entry) (get q x.path2id)

    abbrev pub exchange : IndexUpdate ResourceId
    exchange = record { deleted = old_id ∷ []; added = (path, entry.id) ∷ [] }

    replace_entry_new :
        entry.id ≢ old_id
        → (y : ResourceIndex ResourceId) × (replace_entry b path old_id entry x
            ≡ (returned (ok exchange), y))
          × IsConsistent y
          × Exchanged y
    unfolding replace_entry insert
    replace_entry_new differs =
        let (y, runs, d, kept) = forget_path-IsConsistent path old_id x c held b allowed in
        let (curr, g, k) = held in
        let gone : get path y.path2id ≡ none = rw kept (get-remove_self path x.path2id) in
        (
          insert_entry path entry y,
          ground (arith, runs),
          insert_entry-IsConsistent path entry y gone d,
          λ q. ground (
            arith,
            ap (get q) (path2id-insert_entry path entry y),
            get-insert path q entry y.path2id,
            ap (get q) kept,
            get-remove path q x.path2id,
          ),
        )

  module _ (b : Profile) (path : FilePath) (old_id : ResourceId) (x : ResourceIndex ResourceId)
      (c : IsConsistent x) (held : Holds path old_id x.path2id) where
    -- What a call gives that a debug assertion may stop.
    abbrev Outcomes : Reply ResourceId (IndexUpdate ResourceId) → Type 0
    Outcomes r = IsSound r ⊎ (Misplaced b path old_id x × (r.0 ≡ panic))

    forget_path_outcome : Outcomes (forget_path b path old_id x)
    forget_path_outcome = elim (forget_path_lem path old_id x c held b) [
      | inl (y, runs, d, kept) ↦ inl (rw runs (λ p. cc, d))
      | inr stopped ↦ inr stopped
    ]

    replace_entry-panic :
        (entry : IndexEntry ResourceId)
        → entry.id ≢ old_id
        → Misplaced b path old_id x
        → (replace_entry b path old_id entry x).0 ≡ panic
    unfolding replace_entry
    replace_entry-panic entry differs m =
        let (curr, g, k) = held in
        let stops = forget_path-panic path old_id x c held b m.other m.debug m.recorded m.apart in
        ground (arith, then_insert-panic path entry (forget_path b path old_id x) stops)

    replace_entry_same :
        (entry : IndexEntry ResourceId)
        → entry.id ≡ old_id
        → replace_entry b path old_id entry x
          ≡ (returned (err (ArklibError.collision "New content has the same id")), x)
    unfolding replace_entry
    replace_entry_same entry same = let (curr, g, k) = held in ground arith

    replace_entry_outcome :
        (entry : IndexEntry ResourceId) → Outcomes (replace_entry b path old_id entry x)
    replace_entry_outcome entry = elim (entry.id ≟ old_id) [
      | yes same ↦ inl (rw (replace_entry_same entry same) (λ p. cc, c))
      | no differs ↦ elim (Misplaced-cases path old_id x c held b) [
        | inl allowed ↦
            let (y, runs, d, kept) =
              replace_entry_new b path old_id entry x c held allowed differs in
            inl (rw runs (λ p. cc, d))
        | inr m ↦ inr (m, replace_entry-panic entry differs m)
      ]
    ]

  module _ (b : Profile) (disk : Disk ResourceId) (path canonical : FilePath) (old_id : ResourceId)
      (x : ResourceIndex ResourceId) (there : disk.is_there path ≡ true)
      (same : disk.canonicalize path ≡ ok canonical) (held : Holds canonical old_id x.path2id) where
    -- The two ways on from an existing path of the index.
    abbrev Continues : Reply ResourceId (IndexUpdate ResourceId) → Type 0
    Continues r =
        (r ≡ forget_path b canonical old_id x)
        ⊎ ((entry : IndexEntry ResourceId) × (r ≡ replace_entry b canonical old_id entry x))

    by_scan :
        (metadata : Metadata) (r : Result ArklibError (IndexEntry ResourceId))
        → disk.metadata canonical ≡ ok metadata
        → scan_entry disk canonical metadata ≡ r
        → Continues (update_one b disk path old_id x)
    unfolding update_one
    by_scan metadata (err cause) found scan = let (curr, g, k) = held in inl (ground arith)
    by_scan metadata (ok entry) found scan = let (curr, g, k) = held in inr (entry, ground arith)

    by_metadata :
        (r : Result IoError Metadata)
        → disk.metadata canonical ≡ r
        → Continues (update_one b disk path old_id x)
    unfolding update_one
    by_metadata (err cause) found = let (curr, g, k) = held in inl (ground arith)
    by_metadata (ok metadata) found = by_scan metadata _ found refl

    -- Where the path is there and can be canonicalized and a consistent index maps it into the
    -- id, then whatever the disk answers about its metadata and content, update_one either does
    -- not panic and keeps the index consistent, or panics, and then the build has debug
    -- assertions and id2path records another path for the id.
    pub update_one-IsSound :
        IsConsistent x
        → IsSound (update_one b disk path old_id x)
          ⊎ (Misplaced b canonical old_id x × ((update_one b disk path old_id x).0 ≡ panic))
    update_one-IsSound c = elim (by_metadata (disk.metadata canonical) refl) [
      | inl forgets ↦ rw forgets (forget_path_outcome b canonical old_id x c held)
      | inr (entry, replaces) ↦
          rw replaces (replace_entry_outcome b canonical old_id x c held entry)
    ]

    update_one_replaces :
        (metadata : Metadata) (entry : IndexEntry ResourceId)
        → disk.metadata canonical ≡ ok metadata
        → scan_entry disk canonical metadata ≡ ok entry
        → update_one b disk path old_id x ≡ replace_entry b canonical old_id entry x
    unfolding update_one
    update_one_replaces metadata entry found scan = let (curr, g, k) = held in ground arith

    -- Where the path is there and can be canonicalized, a consistent index maps it into the id,
    -- and its content has a new id, update_one either reports the old id as deleted and the path
    -- with the new id as added, exchanges the entry of this path alone and keeps the index
    -- consistent, or panics, and then the build has debug assertions and id2path records another
    -- path for the old id.
    pub update_one_new :
        (metadata : Metadata) (entry : IndexEntry ResourceId)
        → disk.metadata canonical ≡ ok metadata
        → scan_entry disk canonical metadata ≡ ok entry
        → entry.id ≢ old_id
        → IsConsistent x
        → ((y : ResourceIndex ResourceId) × (update_one b disk path old_id x ≡ (
          returned (ok (record { deleted = old_id ∷ []; added = (canonical, entry.id) ∷ [] })),
          y,
        ))
            × IsConsistent y
            × ((q : FilePath)
                → get q y.path2id ≡ ite (canonical ≟ q) (some entry) (get q x.path2id)))
          ⊎ (Misplaced b canonical old_id x × ((update_one b disk path old_id x).0 ≡ panic))
    update_one_new metadata entry found scan differs c =
        rw (update_one_replaces metadata entry found scan)
          (elim (Misplaced-cases canonical old_id x c held b) [
            | inl allowed ↦
                inl (replace_entry_new b canonical old_id entry x c held allowed differs)
            | inr m ↦ inr (m, replace_entry-panic b canonical old_id x c held entry differs m)
          ])
