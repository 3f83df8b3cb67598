-- ===== src/Storage/Sync.antt =====
-- `write_fs`, `read_fs` and `sync` of fs-storage/src/file_storage.rs: memory against the file.
use ark_rust.Base.{Eq, ℕ, ◌≡◌, String, ap, none, some, arith, inl, inr, Option-cases}
use ark_rust.Error.{ArklibError, ok, err, returned}
use ark_rust.Exec.{continue-eq-ok, pure, ◌>>◌}
use ark_rust.Map.{Map}
use ark_rust.Storage.State.{
  SyncStatus, in_sync, mapping_stale, storage_stale, diverge, Session, FileStorageData, FileNode,
  Host, stat,
}
use ark_rust.Storage.Disk.{load_fs_data, sync_status, file_updated, read_fs, write_fs, modify}
use ark_rust.Storage.Memory.{sync, sync_by, merge_from}

module _ {K V : Type 0} ⦃e : Eq K⦄ (host : Host K V) where
  -- What a successful write leaves: the text of the mapping in the file, and one time on both.
  abbrev pub Written : Session K V → Session K V → Type 0
  Written s s' =
      (text : String) × (time : ℕ) × (host.to_json s.storage.contents ≡ some text)
      × (s'.file ≡ some (record { content = text; modified = time }))
      × (s'.storage ≡ record s.storage { modified = time; written_to_disk = time })

  pub write_fs-Written :
      (s s' : Session K V) → write_fs host s ≡ (returned (ok tt), s') → Written s s'
  unfolding write_fs
  write_fs-Written s s' h = elim (Option-cases (host.to_json s.storage.contents)) [
    | inl fails ↦ absurd (ground arith)
    | inr (text, renders) ↦ (text, host.clock s.ticks, renders, ground arith, ground arith)
  ]

  -- A write that fails leaves the mapping in memory and its times as they were.
  pub write_fs_failed :
      (s s' : Session K V) (cause : ArklibError)
      → write_fs host s ≡ (returned (err cause), s')
      → s'.storage ≡ s.storage
  unfolding write_fs
  write_fs_failed s s' cause h = ground arith

  -- A read that fails changes nothing.
  pub read_fs_failed :
      (s s' : Session K V) (cause : ArklibError)
      → read_fs host s ≡ (returned (err cause), s')
      → s' ≡ s
  unfolding read_fs
  read_fs_failed s s' cause h = ground arith

  in_step :
      (s : Session K V) (node : FileNode)
      → host.fault stat ≡ none
      → s.file ≡ some node
      → s.storage.modified ≡ node.modified
      → s.storage.written_to_disk ≡ node.modified
      → sync_status host s ≡ returned (ok in_sync)
  unfolding sync_status file_updated
  in_step s node works there m w = ground arith

  stat_works :
      (s : Session K V) (status : SyncStatus)
      → sync_status host s ≡ returned (ok status)
      → host.fault stat ≡ none
  unfolding sync_status file_updated
  stat_works s status h = ground arith

  read-in_step :
      (s s' : Session K V) (m : Map K V)
      → host.fault stat ≡ none
      → read_fs host s ≡ (returned (ok m), s')
      → sync_status host s' ≡ returned (ok in_sync)
  unfolding read_fs file_updated
  read-in_step s s' m works h = elim (Option-cases s.file) [
    | inl gone ↦ absurd (ground arith)
    | inr (node, there) ↦ in_step s' node works (ground arith) (ground arith) (ground arith)
  ]

  write-in_step :
      (s s' : Session K V)
      → host.fault stat ≡ none
      → write_fs host s ≡ (returned (ok tt), s')
      → sync_status host s' ≡ returned (ok in_sync)
  write-in_step s s' works h =
      let (text, time, renders, f, st) = write_fs-Written s s' h in
      in_step s' (record { content = text; modified = time }) works f (ap (λ x. x.modified) st)
        (ap (λ x. x.written_to_disk) st)

  sync_by-in_step :
      (status : SyncStatus) (s s' : Session K V)
      → sync_status host s ≡ returned (ok status)
      → sync_by host status s ≡ (returned (ok tt), s')
      → sync_status host s' ≡ returned (ok in_sync)
  unfolding sync_by
  sync_by-in_step in_sync s s' h r = ground arith
  sync_by-in_step mapping_stale s s' h r =
      let (m, t, reads, ends) = continue-eq-ok (read_fs host s) (λ _. pure tt) r in
      read-in_step s s' m (stat_works s _ h) (ground (arith))
  sync_by-in_step storage_stale s s' h r = write-in_step s s' (stat_works s _ h) r
  sync_by-in_step diverge s s' h r =
      let (contents, t, loads, rest) =
        continue-eq-ok (load_fs_data host s, s)
          (λ c. modify host (merge_from host c.entries) >> write_fs host) r in
      write-in_step (merge_from host contents.entries t) s' (stat_works s _ h) rest

  -- A sync that succeeds leaves the storage in sync with its file, whatever the status was
  -- before.
  pub sync-in_sync :
      (s s' : Session K V)
      → sync host s ≡ (returned (ok tt), s')
      → sync_status host s' ≡ returned (ok in_sync)
  unfolding sync
  sync-in_sync s s' r =
      let (status, t, asks, rest) = continue-eq-ok (sync_status host s, s) (sync_by host) r in
      sync_by-in_step status s s' (ground arith) (ground arith)

  pub sync_diverge-runs :
      (s : Session K V) (theirs : FileStorageData K V)
      → sync_status host s ≡ returned (ok diverge)
      → load_fs_data host s ≡ returned (ok theirs)
      → sync host s ≡ write_fs host (merge_from host theirs.entries s)
  unfolding sync
  sync_diverge-runs s theirs asks loads = rw (asks, sync) (rw (loads, sync_by))
