-- ===== src/Storage/Migration.antt =====
-- fs-storage/src/file_storage.rs: what becomes of a storage that is read from a file of version 2.
use text.Mathlib.Text.{starts_with}
use Prim.Native.String.{◌++◌ as append}
use ark_rust.Base.{Eq, ◌≡◌, ◌≢◌, String, refl, ap, ◌∙◌, true, none, some, arith, inl, inr}
use ark_rust.Base.Int.{ℤ, pos}
use ark_rust.Error.{ArklibError, ok, err, returned, Outcome-cases}
use ark_rust.Map.{Map}
use ark_rust.Storage.Legacy.{read_version_2}
use ark_rust.Storage.State.{
  storage_version, Session, FileStorageData, FileNode, Host, read_to_string, open_file,
}
use ark_rust.Storage.Disk.{load_fs_data, load_content, read_fs, write_fs, file_updated}
use ark_rust.Storage.Memory.{set}
use ark_rust.Storage.Sync.{write_fs-Written}
use ark_rust.Storage.RoundTrip.{IsFaithful}

module _ {K V : Type 0} ⦃e : Eq K⦄ (host : Host K V) where
  -- What a load says of a file with another version.
  abbrev pub mismatch : String → ℤ → ArklibError
  mismatch label version =
      ArklibError.storage label
        (append "Storage version mismatch: expected 3, got " (host.display_i32 version))

  load-write_mismatch :
      (f : IsFaithful host) (s s' : Session K V)
      → host.fault read_to_string ≡ none
      → host.fault open_file ≡ none
      → s.storage.contents.version ≢ storage_version
      → write_fs host s ≡ (returned (ok tt), s')
      → load_fs_data host s' ≡ returned (err (mismatch s.storage.label s.storage.contents.version))
  unfolding load_fs_data
  load-write_mismatch f s s' reads opens differs h =
      let (text, time, renders, file, storage) = write_fs-Written host s s' h in
      ground (
        arith,
        f.reads_back s.storage.contents text renders,
        f.not_legacy s.storage.contents text renders,
      )

  legacy_version :
      (label content : String) (c : FileStorageData K V)
      → starts_with content "version: 2" ≡ true
      → load_content host label content ≡ returned (ok c)
      → c.version ≡ pos 2
  unfolding load_content
  legacy_version label content c old h =
      elim (Outcome-cases (read_version_2 host.parsers content)) [
        | inl fails ↦ absurd (ground arith)
        | inr (inl (cause, fails)) ↦ absurd (ground arith)
        | inr (inr (m, parsed)) ↦ ground arith
      ]

  read_legacy :
      (s s' : Session K V) (node : FileNode) (m : Map K V)
      → s.file ≡ some node
      → starts_with node.content "version: 2" ≡ true
      → read_fs host s ≡ (returned (ok m), s')
      → (s'.storage.contents.version ≡ pos 2) × (s'.storage.label ≡ s.storage.label)
  unfolding read_fs load_fs_data file_updated
  read_legacy s s' node m there old h =
      elim (Outcome-cases (load_content host s.storage.label node.content)) [
        | inl fails ↦ absurd (ground arith)
        | inr (inl (cause, fails)) ↦ absurd (ground arith)
        | inr (inr (c, loads)) ↦
            ground (arith, legacy_version s.storage.label node.content c old loads)
      ]

  -- A storage that was read from a file of version 2, changed and written cannot be loaded again,
  -- given a faithful serde_json and a file that can be read: the load reports a version mismatch.
  pub load-write_legacy :
      (f : IsFaithful host) (s s' t : Session K V) (node : FileNode) (m : Map K V) (k : K) (v : V)
      → host.fault read_to_string ≡ none
      → host.fault open_file ≡ none
      → s.file ≡ some node
      → starts_with node.content "version: 2" ≡ true
      → read_fs host s ≡ (returned (ok m), s')
      → write_fs host (set host k v s') ≡ (returned (ok tt), t)
      → load_fs_data host t ≡ returned (err (mismatch s.storage.label (pos 2)))
  unfolding set
  load-write_legacy f s s' t node m k v reads opens there old read writes =
      let (version, label) = read_legacy s s' node m there old read in
      load-write_mismatch f (set host k v s') t reads opens (ground arith) writes
      ∙ ap returned (ap err (rw (version, label) refl))
