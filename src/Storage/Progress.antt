-- ===== src/Storage/Progress.antt =====
-- `write_fs` and `sync` of fs-storage/src/file_storage.rs where the disk has no fault.
use ark_rust.Base.{Eq, ◌≡◌, String, refl, true, none, some, arith, ltb, ◌+◌}
use ark_rust.Error.{ok, returned}
use ark_rust.Storage.State.{
  SyncStatus, in_sync, mapping_stale, storage_stale, diverge, Session, FileStorageData, FileNode,
  Host, Call, create_dir, create_file, write, flush, set_modified, sync_all, stat,
}
use ark_rust.Storage.Disk.{
  load_fs_data, sync_status, file_updated, read_fs, write_fs, loaded, status_of,
}
use ark_rust.Storage.Memory.{sync, sync_by, merge_from}
use ark_rust.Storage.Sync.{sync-in_sync}

module _ {K V : Type 0} ⦃e : Eq K⦄ (host : Host K V) where
  -- The operating system fails no call, and `serde_json` renders each mapping.
  pub record IsSmooth : Type 0 where
    pub no_fault : (c : Call) → host.fault c ≡ none
    pub parent : host.has_parent ≡ true
    pub renders : (c : FileStorageData K V) → (text : String) × (host.to_json c ≡ some text)

  module _ (smooth : IsSmooth) where
    -- What a session is after a write of this text.
    abbrev after_write : String → Session K V → Session K V
    after_write text s = record {
      storage = record s.storage {
        modified = host.clock s.ticks;
        written_to_disk = host.clock s.ticks;
      };
      file = some (record { content = text; modified = host.clock s.ticks });
      ticks = s.ticks + 1;
    }

    -- A write succeeds: the text of the mapping is in the file, at a time that the storage has too.
    pub write_fs_runs :
        (s : Session K V) (text : String)
        → host.to_json s.storage.contents ≡ some text
        → write_fs host s ≡ (returned (ok tt), after_write text s)
    unfolding write_fs
    write_fs_runs s text h = ground (
      arith,
      smooth.no_fault create_dir,
      smooth.no_fault create_file,
      smooth.no_fault write,
      smooth.no_fault flush,
      smooth.no_fault set_modified,
      smooth.no_fault sync_all,
      smooth.parent,
    )

    writes : (s : Session K V) → (s' : Session K V) × (write_fs host s ≡ (returned (ok tt), s'))
    writes s =
        let (text, h) = smooth.renders s.storage.contents in
        (after_write text s, write_fs_runs s text h)

    sync_by_runs :
        (status : SyncStatus) (s : Session K V) (node : FileNode) (c : FileStorageData K V)
        → s.file ≡ some node
        → load_fs_data host s ≡ returned (ok c)
        → (s' : Session K V) × (sync_by host status s ≡ (returned (ok tt), s'))
    unfolding sync_by read_fs
    sync_by_runs in_sync s node c there loads = (s, refl)
    sync_by_runs mapping_stale s node c there loads =
        (loaded host c node.modified s, rw loads (ground (arith, smooth.no_fault stat)))
    sync_by_runs storage_stale s node c there loads = writes s
    sync_by_runs diverge s node c there loads = rw loads (writes (merge_from host c.entries s))

    answers :
        (s : Session K V) (node : FileNode)
        → s.file ≡ some node
        → (status : SyncStatus) × (sync_status host s ≡ returned (ok status))
    unfolding sync_status file_updated
    answers s node there = (
      status_of host (ltb s.storage.written_to_disk s.storage.modified)
          (ltb s.storage.written_to_disk node.modified),
      ground (arith, smooth.no_fault stat),
    )

    -- A sync with a file that loads succeeds and leaves the storage in sync with its file, where
    -- the operating system fails no call and each mapping has a text.
    pub sync_runs :
        (s : Session K V) (node : FileNode) (c : FileStorageData K V)
        → s.file ≡ some node
        → load_fs_data host s ≡ returned (ok c)
        → (s' : Session K V) × (sync host s ≡ (returned (ok tt), s'))
          × (sync_status host s' ≡ returned (ok in_sync))
    unfolding sync
    sync_runs s node c there loads =
        let (status, asks) = answers s node there in
        let (s', runs) = sync_by_runs status s node c there loads in
        let synced : sync host s ≡ (returned (ok tt), s') = rw (asks, sync) runs in
        (s', synced, sync-in_sync host s s' synced)
