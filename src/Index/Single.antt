-- ===== src/Index/Single.antt =====
-- fs-index/src/index.rs: `index_new` and `update_one`, which bring one path up to date.
use ark_rust.Base.{
  Eq, ◌≟◌, string_eq, ℕ, ◌+◌, Bool, true, false, not, ◌&&◌, ite, Option, none, some, [], ◌∷◌,
  if◌then◌else◌,
}
use ark_rust.Error.{ArklibError, ok, err, returned, panic}
use ark_rust.Map
use ark_rust.Map.{Map}
use ark_rust.Index.State.{
  FilePath, IndexEntry, ResourceIndex, IndexUpdate, Reply, Profile, insert_entry, forget_path,
  forget_id,
}
use ark_rust.Index.Scan.{Disk, scan_entry}

abbrev pub is_none {ℓ} : {A : Type ℓ} → Option A → Bool
is_none none = true
is_none (some a) = false

module _ {ResourceId : Type 0} ⦃e : Eq ResourceId⦄ where
  -- `if let Some(nonempty) = self.collisions.get_mut(&id) { *nonempty += 1; }`
  unfoldable pub bump : ResourceId → Map ResourceId ℕ → Map ResourceId ℕ
  bump id cs = elim (Map.get id cs) [ none ↦ cs | some n ↦ Map.insert id (n + 1) cs ]

  -- `index_new` once the entry of the path is known.
  unfoldable pub index_entry :
      FilePath
      → IndexEntry ResourceId
      → ResourceIndex ResourceId
      → Reply ResourceId (IndexUpdate ResourceId)
  unfolding bump
  index_entry path entry x = (
    returned (ok (record { deleted = []; added = (path, entry.id) ∷ [] })),
    record x {
      collisions = bump entry.id x.collisions;
      id2path = Map.insert entry.id path x.id2path;
      path2id = Map.insert path entry x.path2id;
    },
  )

  unfoldable pub index_canonical :
      Disk ResourceId
      → FilePath
      → ResourceIndex ResourceId
      → Reply ResourceId (IndexUpdate ResourceId)
  unfolding index_entry
  index_canonical disk path x = elim (disk.metadata path) [
    | err _ ↦ (returned (err (ArklibError.path "Couldn't to retrieve file metadata")), x)
    | ok metadata ↦ elim (scan_entry disk path metadata) [
      | err _ ↦
          (returned (err (ArklibError.path "The path points to a directory or empty file")), x)
      | ok new_entry ↦ index_entry path new_entry x
    ]
  ]

  unfoldable pub index_new :
      Disk ResourceId
      → FilePath
      → ResourceIndex ResourceId
      → Reply ResourceId (IndexUpdate ResourceId)
  unfolding index_canonical
  index_new disk path x =
      if not (disk.is_there path)
      then (returned (err (ArklibError.path "Absent paths cannot be indexed")), x)
      else elim (disk.canonicalize path) [
        | err cause ↦ (returned (err (ArklibError.io cause)), x)
        | ok canonical ↦ index_canonical disk canonical x
      ]

  -- The closure that `update_one` maps over the result of `forget_path`.
  unfoldable pub then_insert :
      FilePath
      → IndexEntry ResourceId
      → Reply ResourceId (IndexUpdate ResourceId)
      → Reply ResourceId (IndexUpdate ResourceId)
  then_insert path entry (returned (ok update), x) = (
    returned (ok (record update { added = Map.insert path entry.id update.added })),
    insert_entry path entry x,
  )
  then_insert path entry (returned (err cause), x) = (returned (err cause), x)
  then_insert path entry (panic, x) = (panic, x)

  -- `update_one` where a valid resource exists by the path.
  unfoldable pub replace_entry :
      Profile
      → FilePath
      → ResourceId
      → IndexEntry ResourceId
      → ResourceIndex ResourceId
      → Reply ResourceId (IndexUpdate ResourceId)
  unfolding then_insert
  replace_entry b path old_id new_entry x = elim (Map.get path x.path2id) [
    | none ↦ (returned (err (ArklibError.path "Couldn't find the path in the index")), x)
    | some curr_entry ↦
        ite (curr_entry.id ≟ new_entry.id)
          (returned (err (ArklibError.collision "New content has the same id")), x)
          (then_insert path new_entry (forget_path b path old_id x))
  ]

  unfoldable pub update_canonical :
      Profile
      → Disk ResourceId
      → FilePath
      → ResourceId
      → ResourceIndex ResourceId
      → Reply ResourceId (IndexUpdate ResourceId)
  unfolding replace_entry
  update_canonical b disk path old_id x =
      if b.trace_enabled && is_none (Map.get path x.path2id)
      then (panic, x)
      else elim (disk.metadata path) [
        | err _ ↦ forget_path b path old_id x
        | ok metadata ↦ elim (scan_entry disk path metadata) [
          | err _ ↦ forget_path b path old_id x
          | ok new_entry ↦ replace_entry b path old_id new_entry x
        ]
      ]

  unfoldable pub update_one :
      Profile
      → Disk ResourceId
      → FilePath
      → ResourceId
      → ResourceIndex ResourceId
      → Reply ResourceId (IndexUpdate ResourceId)
  unfolding update_canonical
  update_one b disk path old_id x =
      if not (disk.is_there path) then forget_id old_id x else elim (disk.canonicalize path) [
        | err cause ↦ (returned (err (ArklibError.io cause)), x)
        | ok canonical ↦ update_canonical b disk canonical old_id x
      ]
