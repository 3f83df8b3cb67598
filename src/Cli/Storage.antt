-- ===== src/Cli/Storage.antt =====
-- ark-cli/src/models/storage.rs: `Storage`, a file of lines `id:value` or a folder of files; `new` and
-- `load`.
use Prim.Native.String.{◌++◌ as push_str}
use ark_rust.Base.{
  string_eq, String, Bool, true, false, Option, none, some, List, [], ◌∷◌, ◌++◌, if◌then◌else◌,
}
use ark_rust.Base.Text.{split, lines}
use ark_rust.Error.{ArklibError, IoError, Outcome, ok, err, returned, panic, Result}
use ark_rust.Exec.{Exec, ◌>>=◌, ◌>>◌, pure, raise, raised}
use ark_rust.Map
use ark_rust.Map.{Map}
use ark_rust.Atomic.File.{load}
use ark_rust.Atomic.World.{World, Host, in_folder, create_dir_all}
use ark_rust.Atomic.Create.{new}
use ark_rust.Atomic.Modify.{read_content}
use ark_rust.Properties.Store.{looking}
use ark_rust.Cli.Fault.{AppError}

pub data StorageType : Type 0 where
  file folder : StorageType

pub record Storage (ResourceId : Type 0) : Type 0 where
  pub path : String
  pub storage_type : StorageType
  pub files : List ResourceId

-- An entry that `read_dir` gives: its path, its name where that is Unicode, and whether it is a
-- folder, where that can be had.
pub record DirItem : Type 0 where
  pub path : String
  pub file_name : Option String
  pub is_dir : Result IoError Bool

-- What lies outside of the commands: the print and the reading of an id, the listing of a folder, and
-- the texts of errors and quoted paths.
pub record Terminal (ResourceId : Type 0) : Type 0 where
  pub to_string : ResourceId → String
  pub parse : String → Option ResourceId
  pub read_dir : World → String → Result IoError (List (Result IoError DirItem))
  pub debug_path : String → String
  pub debug_io : IoError → String
  pub debug_arklib : ArklibError → String
  pub error_text : IoError → String

abbrev pub Step : Type 0 → Type 0
Step = Exec World AppError

-- `path.exists()`
abbrev pub exists : String → World → Bool
exists path w = elim (Map.get path w.folders) [
  | some _ ↦ true
  | none ↦ elim (Map.get path w.files) [ some _ ↦ true | none ↦ false ]
]

abbrev pub with_error : String → String → String → String
with_error start path cause = push_str start (push_str path (push_str " with error: " cause))

module _ {ResourceId : Type 0} (host : Host) (terminal : Terminal ResourceId) where
  -- A folder that is made where it does not exist.
  abbrev pub provided : String → String → Step Unit
  provided start path w =
      if exists path w
      then (returned (ok tt), w)
      else raised
          (λ cause.
            AppError.storage_creation_error
              (with_error start (terminal.debug_path path) (terminal.debug_io cause)))
          (create_dir_all host path w)

  unfoldable pub new_storage : String → StorageType → Step (Storage ResourceId)
  new_storage path storage_type = do
    provided "Failed to create storage folder at " path
    pure (record { path = path; storage_type = storage_type; files = [] })

  -- The ids at the start of the lines; a line without one is only reported.
  unfoldable pub line_ids : List String → List ResourceId
  unfolding split
  line_ids [] = []
  line_ids (line ∷ rest) =
      let ids = line_ids rest in
      elim (split 58 line) [
        | [] ↦ ids
        | id ∷ _ ↦ elim (terminal.parse id) [ none ↦ ids | some i ↦ i ∷ ids ]
      ]

  -- The ids that the names of a folder are, up to the first error.
  unfoldable pub item_ids : List (Result IoError DirItem) → Result AppError Unit × List ResourceId
  item_ids [] = (ok tt, [])
  item_ids (err cause ∷ rest) = (
    err (
        AppError.file_operation_error
          (push_str "Error reading folder entry: " (terminal.debug_io cause))),
    [],
  )
  item_ids (ok item ∷ rest) =
      let (result, ids) = item_ids rest in
      elim item.file_name [
        | none ↦ (result, ids)
        | some file_name ↦ elim (terminal.parse file_name) [
          | none ↦ (
            err (
                AppError.index_error (
                  push_str "Failed to parse ResourceId from folder entry: "
                    (terminal.debug_path file_name))),
            [],
          )
          | some id ↦ (result, id ∷ ids)
        ]
      ]

  -- The content of the latest version, with the errors of `load`.
  abbrev pub plain_text : String → Step String
  plain_text path = do
    atomic_file ← raise AppError.arklib_error (new host path)
    atomic_file_data ← raise AppError.io_error (
        in_folder host.enoent atomic_file.directory
          (looking (load (host.os atomic_file.directory) atomic_file)))
    raise AppError.io_error (
        in_folder host.enoent atomic_file.directory
          (looking (read_content (host.os atomic_file.directory) atomic_file_data)))

  -- The storage with the ids of a text that was read.
  abbrev pub with_text :
      Storage ResourceId
      → Outcome AppError String × World
      → Outcome AppError Unit × (Storage ResourceId × World)
  with_text s (returned (ok text), w) =
      (returned (ok tt), (record s { files = s.files ++ line_ids (lines text) }, w))
  with_text s (returned (err cause), w) = (returned (err cause), (s, w))
  with_text s (panic, w) = (panic, (s, w))

  abbrev pub with_items :
      Storage ResourceId
      → World
      → Result AppError Unit × List ResourceId
      → Outcome AppError Unit × (Storage ResourceId × World)
  with_items s w (result, ids) = (returned result, (record s { files = s.files ++ ids }, w))

  -- `Storage::load`; the ids found before an error stay.
  abbrev pub load_by :
      StorageType
      → Storage ResourceId
      → World
      → Outcome AppError Unit × (Storage ResourceId × World)
  load_by file s w = with_text s (plain_text s.path w)
  load_by folder s w = elim (terminal.read_dir w s.path) [
    | err cause ↦ (
      returned (
          err (
            AppError.file_operation_error (
              with_error "Failed to read folder at " (terminal.debug_path s.path)
                (terminal.debug_io cause)))),
      (s, w),
    )
    | ok folder_entries ↦ with_items s w (item_ids folder_entries)
  ]

  unfoldable pub load_storage :
      Storage ResourceId → World → Outcome AppError Unit × (Storage ResourceId × World)
  unfolding line_ids item_ids
  load_storage s w = load_by s.storage_type s w
