-- ===== src/Cli/Roots.antt =====
-- ark-cli/src/util.rs: the roots, the names of the storages, and the reading of one value.
use ark_rust.Base.{
  Eq, string_eq, ◌≟◌, String, Bool, false, Option, none, some, List, [], ◌∷◌, ite, if◌then◌else◌,
}
use ark_rust.Error.{IoError, Outcome, ok, err, returned, panic, Result}
use ark_rust.Exec.{◌>>=◌, pure, fail, lift}
use ark_rust.Atomic.World.{Host}
use ark_rust.Cli.Fault.{AppError}
use ark_rust.Cli.Storage.{StorageType, file, folder, Terminal, Step, new_storage}
use ark_rust.Cli.Values.{read}

-- What lies outside: the working directory, the lines of a file, the file system, and `to_lowercase`.
pub record Shell : Type 0 where
  pub ark_config : String
  pub current_dir : Result IoError String
  pub open_lines : String → Result IoError (List (Result IoError String))
  pub canonicalize : String → Result IoError String
  pub ancestors : String → List String
  pub metadata_is_dir : String → Result IoError Bool
  pub is_folder : String → Bool
  pub to_lowercase : String → String
  pub join : String → String → String

-- A line that cannot be read is only printed.
unfoldable pub parse_roots : List (Result IoError String) → List String
parse_roots [] = []
parse_roots (ok path ∷ lines) = path ∷ parse_roots lines
parse_roots (err _ ∷ lines) = parse_roots lines

module _ (shell : Shell) where
  unfoldable pub storages_exists : String → Bool
  storages_exists path = elim (shell.metadata_is_dir (shell.join path ".ark")) [
    | ok is_dir ↦ is_dir
    | err _ ↦ false
  ]

  -- The nearest folder with storages.
  unfoldable pub find_root : List String → List String
  unfolding storages_exists
  find_root [] = []
  find_root (path ∷ paths) =
      let rest = find_root paths in if storages_exists path then path ∷ [] else rest

  -- Without a config: the working directory and the folders above it.
  abbrev pub search_root : Outcome AppError (List String)
  search_root = elim shell.current_dir [
    | err _ ↦ panic
    | ok dir ↦ elim (shell.canonicalize dir) [
      | err _ ↦ panic
      | ok path ↦ returned (ok (find_root (shell.ancestors path)))
    ]
  ]

  unfoldable pub discover_roots : Option String → Outcome AppError (List String)
  unfolding parse_roots find_root
  discover_roots (some path) = elim (shell.open_lines path) [
    | err cause ↦ returned (err (AppError.io_error cause))
    | ok config ↦ returned (ok (parse_roots config))
  ]
  discover_roots none = elim (shell.open_lines shell.ark_config) [
    | ok config ↦ returned (ok (parse_roots config))
    | err _ ↦ search_root
  ]

  unfoldable pub provide_root : Option String → Result AppError String
  provide_root (some path) = ok path
  provide_root none = elim shell.current_dir [
    | ok path ↦ ok path
    | err cause ↦ err (AppError.io_error cause)
  ]

  -- The path of a storage below the root, if there is a root.
  abbrev pub below :
      Result AppError String → String → StorageType → Option (String × Option StorageType)
  below (ok root) storage storage_type =
      some (shell.join (shell.join root ".ark") storage, some storage_type)
  below (err _) storage storage_type = none

  -- The file or folder of a storage with this name.
  abbrev pub named_storage : Result AppError String → String → Option (String × Option StorageType)
  named_storage root name = ite (name ≟ "tags") (below root "user/tags" file) (
      ite (name ≟ "scores") (below root "user/scores" file) (
        ite (name ≟ "stats") (below root "stats" folder) (
          ite (name ≟ "properties") (below root "user/properties" folder) (
            ite (name ≟ "metadata") (below root "cache/metadata" folder) (
              ite (name ≟ "previews") (below root "cache/previews" folder)
                (ite (name ≟ "thumbnails") (below root "cache/thumbnails" folder) none))))))

  unfoldable pub translate_storage : Option String → String → Option (String × Option StorageType)
  unfolding provide_root
  translate_storage root storage =
      if shell.is_folder storage
      then some (storage, none)
      else named_storage (provide_root root) (shell.to_lowercase storage)

  -- The type that is written on the command line; another word panics. It is computed also where the
  -- name of the storage has a type.
  abbrev pub written_type : Option String → Outcome AppError StorageType
  written_type none = returned (ok file)
  written_type (some type_) =
      let name = shell.to_lowercase type_ in
      ite (name ≟ "file") (returned (ok file)) (ite (name ≟ "folder") (returned (ok folder)) panic)

  abbrev pub chosen : Option StorageType → StorageType → StorageType
  chosen (some storage_type) other = storage_type
  chosen none other = other

  module _ {ResourceId : Type 0} ⦃e : Eq ResourceId⦄ (host : Host)
      (terminal : Terminal ResourceId) where
    abbrev pub parsed_id : Option ResourceId → Step ResourceId
    parsed_id none = fail AppError.invalid_entry_option
    parsed_id (some id) = pure id

    abbrev pub read_translated :
        Option (String × Option StorageType) → String → String → Option String → Step String
    read_translated none storage id type_ = fail (AppError.storage_not_found storage)
    read_translated (some (file_path, storage_type)) storage id type_ = do
      other ← lift (written_type type_)
      s ← new_storage host terminal file_path (chosen storage_type other)
      resource_id ← parsed_id (terminal.parse id)
      read host terminal s resource_id

    unfoldable pub read_storage_value : String → String → String → Option String → Step String
    unfolding translate_storage
    read_storage_value root_dir storage id type_ =
        read_translated (translate_storage (some root_dir) storage) storage id type_
