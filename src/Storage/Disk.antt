-- ===== src/Storage/Disk.antt =====
-- fs-storage/src/file_storage.rs: the operations that read and write the file.
use text.Mathlib.Text.{starts_with}
use Prim.Native.String.{◌++◌ as append}
use mathlib.Core.Logic.{ite}
use ark_rust.Base.{Eq, ◌+◌, String, Bool, true, false, none, some, ltb, if◌then◌else◌}
use ark_rust.Base.Int.{pos, ℤ-discrete}
use ark_rust.Error.{ArklibError, from, serde_json_error, Result, Outcome, ok, err, returned, panic}
use ark_rust.Exec.{Exec, ◌>>=◌, ◌>>◌, pure}
use ark_rust.Map.{Map}
use ark_rust.Storage.Legacy.{read_version_2}
use ark_rust.Storage.State.{
  SyncStatus, in_sync, mapping_stale, storage_stale, diverge, storage_version, SystemTime, FileNode,
  FileStorageData, Session, Call, read_to_string, open_file, stat, create_dir, create_file, write,
  flush, set_modified, sync_all, remove_file, Host,
}

module _ {K V : Type 0} ⦃e : Eq K⦄ (host : Host K V) where
  abbrev pub Run : Type 0 → Type 0
  Run = Exec (Session K V) ArklibError

  -- `SystemTime::now()`
  abbrev pub now : Run SystemTime
  now s = (returned (ok (host.clock s.ticks)), record s { ticks = s.ticks + 1 })

  -- A call of the operating system, with `?`.
  abbrev pub attempt : Call → Run Unit
  attempt c s = elim (host.fault c) [
    | none ↦ (returned (ok tt), s)
    | some cause ↦ (returned (err (ArklibError.io cause)), s)
  ]

  abbrev pub the_file : Run FileNode
  the_file s = elim s.file [
    | none ↦ (returned (err (ArklibError.io host.missing)), s)
    | some node ↦ (returned (ok node), s)
  ]

  abbrev pub put_file : FileNode → Run Unit
  put_file node s = (returned (ok tt), record s { file = some node })

  abbrev pub view : {A : Type 0} → (Session K V → Outcome ArklibError A) → Run A
  view f s = (f s, s)

  abbrev pub modify : (Session K V → Session K V) → Run Unit
  modify f s = (returned (ok tt), f s)

  unfoldable pub load_legacy : String → String → Outcome ArklibError (FileStorageData K V)
  load_legacy label content = elim (read_version_2 host.parsers content) [
    | panic ↦ panic
    | returned (err _) ↦
        returned
          (err (ArklibError.storage label "Storage seems to be version 2, but failed to parse"))
    | returned (ok entries) ↦ returned (ok (record { version = pos 2; entries = entries }))
  ]

  unfoldable pub load_json : String → String → Result ArklibError (FileStorageData K V)
  load_json label content = elim (host.from_json content) [
    | err text ↦ err (ArklibError.storage label text)
    | ok contents ↦ ite (ℤ-discrete contents.version storage_version) (ok contents) (
        err (
          ArklibError.storage label (
            append "Storage version mismatch: expected 3, got "
              (host.display_i32 contents.version))))
  ]

  unfoldable pub load_content : String → String → Outcome ArklibError (FileStorageData K V)
  unfolding load_legacy load_json
  load_content label content =
      if starts_with content "version: 2"
      then load_legacy label content
      else elim (host.fault open_file) [
        | some cause ↦ returned (err (ArklibError.io cause))
        | none ↦ returned (load_json label content)
      ]

  unfoldable pub load_fs_data : Session K V → Outcome ArklibError (FileStorageData K V)
  unfolding load_content
  load_fs_data s = elim s.file [
    | none ↦ returned (err (ArklibError.storage s.storage.label "File does not exist"))
    | some node ↦ elim (host.fault read_to_string) [
      | some cause ↦ returned (err (ArklibError.io cause))
      | none ↦ load_content s.storage.label node.content
    ]
  ]

  -- `fs::metadata(&self.path)?.modified()?`
  unfoldable pub file_updated : Session K V → Result ArklibError SystemTime
  file_updated s = elim (host.fault stat) [
    | some cause ↦ err (ArklibError.io cause)
    | none ↦ elim s.file [ none ↦ err (ArklibError.io host.missing) | some node ↦ ok node.modified ]
  ]

  abbrev pub status_of : Bool → Bool → SyncStatus
  status_of true true = diverge
  status_of true false = storage_stale
  status_of false true = mapping_stale
  status_of false false = in_sync

  unfoldable pub sync_status : Session K V → Outcome ArklibError SyncStatus
  unfolding file_updated
  sync_status s = elim (file_updated s) [
    | err cause ↦ returned (err cause)
    | ok updated ↦ returned (
        ok (
          status_of (ltb s.storage.written_to_disk s.storage.modified)
            (ltb s.storage.written_to_disk updated)))
  ]

  abbrev pub loaded : FileStorageData K V → SystemTime → Session K V → Session K V
  loaded contents time s = record s {
    storage = record s.storage { modified = time; written_to_disk = time; contents = contents };
  }

  unfoldable pub read_fs : Run (Map K V)
  unfolding load_fs_data file_updated
  read_fs = do
    contents ← view load_fs_data
    time ← view (λ s. returned (file_updated s))
    modify (loaded contents time)
    pure contents.entries

  abbrev pub parent_dir : Run Unit
  parent_dir s = if host.has_parent then (returned (ok tt), s) else (
    returned (err (ArklibError.storage s.storage.label "Failed to get parent directory")),
    s,
  )

  -- `serde_json::to_string_pretty(&self.data)?`
  abbrev pub serialized : Session K V → Outcome ArklibError String
  serialized s = elim (host.to_json s.storage.contents) [
    | none ↦ returned (err (from serde_json_error))
    | some text ↦ returned (ok text)
  ]

  -- `file.write_all(..)?`
  abbrev pub write_all : String → Run Unit
  write_all text s = elim (host.fault write) [
    | some cause ↦ (
      returned (err (ArklibError.io cause)),
      record s { file = some (record { content = host.torn; modified = host.os_time }) },
    )
    | none ↦ put_file (record { content = text; modified = host.os_time }) s
  ]

  abbrev pub stamped : SystemTime → Session K V → Session K V
  stamped time s = record s {
    storage = record s.storage { modified = time; written_to_disk = time };
  }

  unfoldable pub write_fs : Run Unit
  write_fs = do
    parent_dir
    attempt create_dir
    attempt create_file
    put_file (record { content = ""; modified = host.os_time })
    text ← view serialized
    write_all text
    attempt flush
    new_timestamp ← now
    attempt set_modified
    put_file (record { content = text; modified = new_timestamp })
    attempt sync_all
    modify (stamped new_timestamp)

  unfoldable pub erase : Session K V → Result ArklibError Unit × Session K V
  erase s = elim (host.fault remove_file) [
    | some cause ↦ (err (ArklibError.storage s.storage.label cause.message), s)
    | none ↦ elim s.file [
      | none ↦ (err (ArklibError.storage s.storage.label host.missing.message), s)
      | some _ ↦ (ok tt, record s { file = none })
    ]
  ]
