-- ===== src/Storage/Memory.antt =====
-- fs-storage/src/file_storage.rs: `set`, `remove`, `merge_from`, `sync` and `new`.
use ark_rust.Base.{Eq, ℕ, ◌+◌, String, Option, none, some, List, [], ◌∷◌}
use ark_rust.Error.{ArklibError, Result, Outcome, ok, err, returned}
use ark_rust.Exec.{◌>>=◌, ◌>>◌, pure}
use ark_rust.Map
use ark_rust.Map.{Map}
use ark_rust.Storage.State.{
  SyncStatus, in_sync, mapping_stale, storage_stale, diverge, storage_version, FileNode, Session,
  Host,
}
use ark_rust.Storage.Disk.{Run, view, modify, load_fs_data, sync_status, read_fs, write_fs}

module _ {K V : Type 0} ⦃e : Eq K⦄ (host : Host K V) where
  -- `self.modified = SystemTime::now()`, after a change of the entries.
  abbrev pub changed : Map K V → Session K V → Session K V
  changed entries s = record s {
    storage = record s.storage {
      contents = record s.storage.contents { entries = entries };
      modified = host.clock s.ticks;
    };
    ticks = s.ticks + 1;
  }

  unfoldable pub set : K → V → Session K V → Session K V
  set key value s = changed (Map.insert key value s.storage.contents.entries) s

  unfoldable pub remove : K → Session K V → Result ArklibError Unit × Session K V
  remove id s = elim (Map.get id s.storage.contents.entries) [
    | none ↦ (err (ArklibError.storage s.storage.label "Key not found"), s)
    | some _ ↦ (ok tt, changed (Map.remove id s.storage.contents.entries) s)
  ]

  -- The value that `merge_from` sets, from the one that is there and the other one.
  abbrev pub resolved : Option V → V → V
  resolved none value = value
  resolved (some existing) value = host.monoid.combine existing value

  unfoldable pub merge_each : List (K × V) → Session K V → Session K V
  unfolding set
  merge_each [] s = s
  merge_each ((key, value) ∷ rest) s =
      merge_each rest (set key (resolved (Map.get key s.storage.contents.entries) value) s)

  unfoldable pub merge_from : Map K V → Session K V → Session K V
  unfolding merge_each
  merge_from other s = let s' = merge_each other s in changed s'.storage.contents.entries s'

  unfoldable pub sync_by : SyncStatus → Run host Unit
  sync_by in_sync = pure tt
  sync_by mapping_stale = do read_fs host; pure tt
  sync_by storage_stale = write_fs host
  sync_by diverge = do
    contents ← view host (load_fs_data host)
    modify host (merge_from contents.entries)
    write_fs host

  unfoldable pub sync : Run host Unit
  unfolding sync_by
  sync = do status ← view host (sync_status host); sync_by status

  -- The storage that `new` starts from, by the file that is there.
  abbrev pub fresh : String → Option FileNode → ℕ → Session K V
  fresh label file ticks = record {
    storage = record {
      label = label;
      modified = host.clock ticks;
      written_to_disk = host.clock ticks;
      contents = record { version = storage_version; entries = [] };
    };
    file = file;
    ticks = ticks + 1;
  }

  unfoldable pub new : String → Option FileNode → ℕ → Outcome ArklibError Unit × Session K V
  unfolding read_fs
  new label none ticks = (returned (ok tt), fresh label none ticks)
  new label (some node) ticks = (do read_fs host; pure tt) (fresh label (some node) ticks)
