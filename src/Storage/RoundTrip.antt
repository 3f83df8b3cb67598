-- ===== src/Storage/RoundTrip.antt =====
-- Writes of fs-storage/src/file_storage.rs, and the loads that follow them.
use text.Mathlib.Text.{starts_with}
use ark_rust.Base.{Eq, ◌≡◌, String, refl, sym, ap, ◌∙◌, false, none, some, List, [], ◌∷◌, arith}
use ark_rust.Error.{ArklibError, Outcome, ok, returned}
use ark_rust.Map.{get}
use ark_rust.Map.Keys.{IsUnique}
use ark_rust.Storage.State.{
  diverge, storage_version, Session, FileStorage, FileStorageData, Host, read_to_string, open_file,
}
use ark_rust.Storage.Disk.{load_fs_data, sync_status, write_fs}
use ark_rust.Storage.Memory.{sync, merge_from, merge_each}
use ark_rust.Storage.Merge.{union, get-merge_from}
use ark_rust.Storage.Sync.{write_fs-Written, sync_diverge-runs}

module _ {K V : Type 0} ⦃e : Eq K⦄ (host : Host K V) where
  -- What `serde_json` promises: it reads what it has written, and an object starts with a brace.
  pub record IsFaithful : Type 0 where
    pub reads_back :
        (c : FileStorageData K V) (text : String)
        → host.to_json c ≡ some text
        → host.from_json text ≡ ok c
    pub not_legacy :
        (c : FileStorageData K V) (text : String)
        → host.to_json c ≡ some text
        → starts_with text "version: 2" ≡ false

  module _ (f : IsFaithful) (reads : host.fault read_to_string ≡ none)
      (opens : host.fault open_file ≡ none) where
    -- After a write of a mapping of version 3 that succeeds, a load gives the mapping that was
    -- written, given a faithful serde_json and a file that can be read.
    pub load-write :
        (s s' : Session K V)
        → s.storage.contents.version ≡ storage_version
        → write_fs host s ≡ (returned (ok tt), s')
        → load_fs_data host s' ≡ returned (ok s.storage.contents)
    unfolding load_fs_data
    load-write s s' v h =
        let (text, time, renders, file, storage) = write_fs-Written host s s' h in
        ground (
          arith,
          f.reads_back s.storage.contents text renders,
          f.not_legacy s.storage.contents text renders,
        )

    merged_version :
        (other : List (K × V)) (s : Session K V)
        → (merge_each host other s).storage.contents.version ≡ s.storage.contents.version
    unfolding merge_each
    merged_version [] s = refl
    merged_version ((key, value) ∷ rest) s = merged_version rest _

    -- Where memory and file have both changed, a sync that succeeds leaves in memory and in the
    -- file the union of the two mappings, with the values of a common key combined, given a
    -- faithful serde_json, a file that can be read, unique keys in it and version 3 in memory.
    pub sync_diverged :
        (s s' : Session K V) (theirs : FileStorageData K V)
        → s.storage.contents.version ≡ storage_version
        → IsUnique theirs.entries
        → sync_status host s ≡ returned (ok diverge)
        → load_fs_data host s ≡ returned (ok theirs)
        → sync host s ≡ (returned (ok tt), s')
        → ((k : K)
            → get k s'.storage.contents.entries
              ≡ union host (get k s.storage.contents.entries) (get k theirs.entries))
          × (load_fs_data host s' ≡ returned (ok s'.storage.contents))
    unfolding merge_from
    sync_diverged s s' theirs v u asks loads h =
        let t : Session K V = merge_from host theirs.entries s in
        let writes : write_fs host t ≡ (returned (ok tt), s') =
          sym (sync_diverge-runs host s theirs asks loads) ∙ h in
        let (text, time, renders, file, storage) = write_fs-Written host t s' writes in
        let given : FileStorage K V → Outcome ArklibError (FileStorageData K V) =
          λ x. returned (ok x.contents) in
        (
          λ k.
              ap (λ x. get k x.contents.entries) storage ∙ get-merge_from host k theirs.entries s u,
          load-write t s' (merged_version theirs.entries s ∙ v) writes ∙ ap given (sym storage),
        )
