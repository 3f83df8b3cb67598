-- ===== src/Storage/Converge.antt =====
-- Two processes that sync their storages of fs-storage/src/file_storage.rs with one file.
use ark_rust.Base.{Eq, ◌≡◌, refl, sym, ap, ◌∙◌, List, [], ◌∷◌, none, arith}
use ark_rust.Error.{ok, returned}
use ark_rust.Map.{get}
use ark_rust.Map.Keys.{IsUnique, insert-IsUnique}
use ark_rust.Storage.State.{
  diverge, mapping_stale, storage_version, Session, FileStorageData, Host, read_to_string,
  open_file,
}
use ark_rust.Storage.Disk.{
  load_fs_data, load_content, load_json, load_legacy, sync_status, write_fs, read_fs,
}
use ark_rust.Storage.Memory.{set, sync, sync_by, merge_from, merge_each, resolved}
use ark_rust.Storage.Merge.{union}
use ark_rust.Storage.Sync.{write_fs-Written, sync_diverge-runs}
use ark_rust.Storage.RoundTrip.{IsFaithful, sync_diverged}

module _ {K V : Type 0} ⦃e : Eq K⦄ (host : Host K V) where
  -- What a load gives depends on the file alone, where it succeeds.
  load_same :
      (a b : Session K V) (c : FileStorageData K V)
      → a.file ≡ b.file
      → load_fs_data host b ≡ returned (ok c)
      → load_fs_data host a ≡ returned (ok c)
  unfolding load_fs_data load_content load_json load_legacy
  load_same a b c same h = ground arith

  merge_each-IsUnique :
      (other : List (K × V)) (s : Session K V)
      → IsUnique s.storage.contents.entries
      → IsUnique (merge_each host other s).storage.contents.entries
  unfolding merge_each set
  merge_each-IsUnique [] s u = u
  merge_each-IsUnique ((key, value) ∷ rest) s u = merge_each-IsUnique rest _ (
      insert-IsUnique key (resolved host (get key s.storage.contents.entries) value)
        s.storage.contents.entries u)

  sync_diverged-IsUnique :
      (s s' : Session K V) (theirs : FileStorageData K V)
      → IsUnique s.storage.contents.entries
      → sync_status host s ≡ returned (ok diverge)
      → load_fs_data host s ≡ returned (ok theirs)
      → sync host s ≡ (returned (ok tt), s')
      → IsUnique s'.storage.contents.entries
  unfolding merge_from
  sync_diverged-IsUnique s s' theirs u asks loads h =
      let t : Session K V = merge_from host theirs.entries s in
      let writes : write_fs host t ≡ (returned (ok tt), s') =
        sym (sync_diverge-runs host s theirs asks loads) ∙ h in
      let (text, time, renders, file, storage) = write_fs-Written host t s' writes in
      rw storage (merge_each-IsUnique theirs.entries s u)

  -- A sync of a storage without changes takes what the file has.
  sync_stale :
      (s s' : Session K V) (c : FileStorageData K V)
      → sync_status host s ≡ returned (ok mapping_stale)
      → load_fs_data host s ≡ returned (ok c)
      → sync host s ≡ (returned (ok tt), s')
      → (s'.storage.contents ≡ c) × (s'.file ≡ s.file)
  unfolding sync sync_by read_fs
  sync_stale s s' c asks loads h = (ground arith, ground arith)

  module _ (f : IsFaithful host) (reads : host.fault read_to_string ≡ none)
      (opens : host.fault open_file ≡ none) where
    -- Two storages that share a file converge: where the first has changed with the file and
    -- syncs, the second has changes of its own and syncs, and the first, unchanged since, syncs
    -- again, and each sync succeeds, both have in memory what the file has, the union of the
    -- changes of both and of the first content of the file, with the values of a common key
    -- combined, given a faithful serde_json, a file that can be read, unique keys and version 3
    -- in memory.
    pub sync_converges :
        (s s' t t' u : Session K V) (theirs : FileStorageData K V)
        → s.storage.contents.version ≡ storage_version
        → t.storage.contents.version ≡ storage_version
        → IsUnique s.storage.contents.entries
        → IsUnique theirs.entries
        → sync_status host s ≡ returned (ok diverge)
        → load_fs_data host s ≡ returned (ok theirs)
        → sync host s ≡ (returned (ok tt), s')
        → t.file ≡ s'.file
        → sync_status host t ≡ returned (ok diverge)
        → sync host t ≡ (returned (ok tt), t')
        → sync_status host (record s' { file = t'.file }) ≡ returned (ok mapping_stale)
        → sync host (record s' { file = t'.file }) ≡ (returned (ok tt), u)
        → ((k : K)
            → get k t'.storage.contents.entries
              ≡ union host
                  (get k t.storage.contents.entries)
                  (union host (get k s.storage.contents.entries) (get k theirs.entries)))
          × (u.storage.contents ≡ t'.storage.contents)
          × (load_fs_data host u ≡ returned (ok t'.storage.contents))
    sync_converges s s' t t' u theirs v w own foreign asks loads syncs shared later syncs_later
          stale syncs_again =
        let (merged, kept) =
          sync_diverged host f reads opens s s' theirs v foreign asks loads syncs in
        let loads_t = load_same t s' s'.storage.contents shared kept in
        let (merged_later, kept_later) =
          sync_diverged host f reads opens t t' s'.storage.contents w
            (sync_diverged-IsUnique s s' theirs own asks loads syncs) later loads_t syncs_later in
        let loads_again =
          load_same (record s' { file = t'.file }) t' t'.storage.contents refl kept_later in
        let (same, file) =
          sync_stale (record s' { file = t'.file }) u t'.storage.contents stale loads_again
            syncs_again in
        (
          λ k. merged_later k ∙ ap (union host (get k t.storage.contents.entries)) (merged k),
          same,
          load_same u t' t'.storage.contents file kept_later,
        )
