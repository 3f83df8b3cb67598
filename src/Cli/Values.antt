-- ===== src/Cli/Values.antt =====
-- ark-cli/src/models/storage.rs: `append`, `insert` and `read` of `Storage`.
use Prim.Native.String.{◌++◌ as push_str}
use ark_rust.Base.{Eq, ◌≟◌, string_eq, String, none, some, List, [], ◌∷◌, if◌then◌else◌, ite}
use ark_rust.Base.Text.{split, lines}
use ark_rust.Error.{Outcome, ok, err, returned, panic}
use ark_rust.Exec.{Exec, ◌>>=◌, ◌>>◌, Stop, failed, fail, raise, lift}
use ark_rust.Json.Value.{Value}
use ark_rust.Atomic.File.{ReadOnlyFile, AtomicFile, load}
use ark_rust.Atomic.World.{World, Host, in_folder}
use ark_rust.Atomic.Create.{new}
use ark_rust.Atomic.Modify.{read_content}
use ark_rust.Atomic.ModifyJson.{Serde}
use ark_rust.Properties.Store.{looking}
use ark_rust.Cli.Fault.{AppError}
use ark_rust.Cli.Storage.{
  StorageType, file, folder, Storage, Terminal, Step, exists, with_error, provided,
}
use ark_rust.Cli.Utils.{Format, raw, key_value, Rounds, file_append, file_insert}

module _ {ResourceId : Type 0} ⦃e : Eq ResourceId⦄ (host : Host)
    (terminal : Terminal ResourceId) where
  -- `AtomicFile::new(path)`, whose error shows the path of the storage.
  abbrev pub atomic_at : Storage ResourceId → String → Step AtomicFile
  atomic_at s path =
      raise
        (λ cause.
          AppError.file_operation_error
            (with_error "Failed to create atomic file at " s.path (terminal.debug_arklib cause)))
        (new host path)

  abbrev pub id_line : ResourceId → String → String
  id_line id content = push_str (terminal.to_string id) (push_str ":" (push_str content "\n"))

  abbrev pub unsupported : AppError
  unsupported = AppError.storage_creation_error "Key value format is not supported for file storage"

  abbrev pub folder_of : Storage ResourceId → ResourceId → String
  folder_of s id = host.join s.path (terminal.to_string id)

  -- The latest version of a file, with the errors of `read` and `list`.
  abbrev pub loaded_at : Storage ResourceId → AtomicFile → Step ReadOnlyFile
  loaded_at s atomic_file =
      raise
        (λ cause. AppError.file_operation_error (
          with_error "Failed to load atomic file at " (terminal.debug_path s.path)
            (terminal.debug_io cause)))
        (in_folder host.enoent atomic_file.directory
          (looking (load (host.os atomic_file.directory) atomic_file)))

  abbrev pub text_at : AtomicFile → ReadOnlyFile → Step String
  text_at atomic_file atomic_file_data =
      raise (λ cause. AppError.file_operation_error "Could not read atomic file content.")
        (in_folder host.enoent atomic_file.directory
          (looking (read_content (host.os atomic_file.directory) atomic_file_data)))

  abbrev pub not_there : ResourceId → AppError
  not_there id =
      AppError.storage_not_found
        (push_str "Resource with id " (push_str (terminal.to_string id) " not found"))

  -- The second piece of a line, unwrapped.
  abbrev pub second : List String → Outcome AppError String
  second [] = panic
  second (text ∷ _) = returned (ok text)

  -- The first line of the id.
  unfoldable pub read_lines : ResourceId → List String → Outcome AppError String
  unfolding split
  read_lines id [] = returned (err (not_there id))
  read_lines id (line ∷ rest) =
      let later = read_lines id rest in
      elim (split 58 line) [
        | [] ↦ panic
        | line_id ∷ pieces ↦ elim (terminal.parse line_id) [
          | none ↦ later
          | some i ↦ ite (id ≟ i) (second pieces) later
        ]
      ]

  abbrev pub folder_text : Storage ResourceId → String → Step String
  folder_text s path = do
    atomic_file ← atomic_at s path
    atomic_file_text ← loaded_at s atomic_file
    text_at atomic_file atomic_file_text

  abbrev pub read_folder : Storage ResourceId → ResourceId → Step String
  read_folder s id w =
      if exists (folder_of s id) w
      then folder_text s (folder_of s id) w
      else (returned (err (not_there id)), w)

  abbrev pub read_by : StorageType → Storage ResourceId → ResourceId → Step String
  read_by file s id = do
    atomic_file ← atomic_at s s.path
    atomic_file_data ← loaded_at s atomic_file
    text ← text_at atomic_file atomic_file_data
    lift (read_lines id (lines text))
  read_by folder s id = read_folder s id

  unfoldable pub read : Storage ResourceId → ResourceId → Step String
  unfolding read_lines
  read s id = read_by s.storage_type s id

module _ {ResourceId N : Type 0} ⦃e : Eq ResourceId⦄ (host : Host) (terminal : Terminal ResourceId)
    (serde : Serde (Value N)) (rounds : Rounds) where
  abbrev pub append_line :
      AtomicFile → ResourceId → String → Format → Exec World (Stop AppError) Unit
  append_line atomic_file id content key_value = fail (failed (unsupported host terminal))
  append_line atomic_file id content raw =
      file_append host serde rounds terminal.error_text atomic_file
        (id_line host terminal id content) raw

  abbrev pub append_by :
      StorageType
      → Storage ResourceId
      → ResourceId
      → String
      → Format
      → Exec World (Stop AppError) Unit
  append_by file s id content format = do
    atomic_file ← raise failed (atomic_at host terminal s s.path)
    append_line atomic_file id content format
  append_by folder s id content format = do
    raise failed
        (provided host terminal "Failed to create folder at " (folder_of host terminal s id))
    atomic_file ← raise failed (atomic_at host terminal s (folder_of host terminal s id))
    file_append host serde rounds terminal.error_text atomic_file content format

  unfoldable pub append :
      Storage ResourceId → ResourceId → String → Format → Exec World (Stop AppError) Unit
  unfolding file_append
  append s id content format = append_by s.storage_type s id content format

  abbrev pub insert_line :
      AtomicFile → ResourceId → String → Format → Exec World (Stop AppError) Unit
  insert_line atomic_file id content key_value = fail (failed (unsupported host terminal))
  insert_line atomic_file id content raw =
      file_insert host serde rounds terminal.error_text atomic_file
        (id_line host terminal id content) raw

  abbrev pub insert_by :
      StorageType
      → Storage ResourceId
      → ResourceId
      → String
      → Format
      → Exec World (Stop AppError) Unit
  insert_by file s id content format = do
    atomic_file ← raise failed (atomic_at host terminal s s.path)
    insert_line atomic_file id content format
  insert_by folder s id content format = do
    raise failed
        (provided host terminal "Failed to create folder at " (folder_of host terminal s id))
    atomic_file ← raise failed (atomic_at host terminal s (folder_of host terminal s id))
    file_insert host serde rounds terminal.error_text atomic_file content format

  unfoldable pub insert :
      Storage ResourceId → ResourceId → String → Format → Exec World (Stop AppError) Unit
  unfolding file_insert
  insert s id content format = insert_by s.storage_type s id content format
