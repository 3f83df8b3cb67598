-- ===== src/Properties/Store.antt =====
-- fs-properties/src/lib.rs and fs-metadata/src/lib.rs: storing and loading.
use ark_rust.Base.{Eq, string_eq, ℕ, String, Option, none, some}
use ark_rust.Error.{ArklibError, IoError, not_found, Outcome, returned, Result}
use ark_rust.Exec.{Exec, ◌>>=◌, Stop, failed, map_stop, pure, fail, raise}
use ark_rust.Json.Value.{Value, value_eq}
use ark_rust.Json.Merge.{merge}
use ark_rust.Atomic.File.{Folder, load}
use ark_rust.Atomic.World.{World, Host, in_folder}
use ark_rust.Atomic.Create.{new}
use ark_rust.Atomic.Modify.{open_version}
use ark_rust.Atomic.ModifyJson.{Serde, modify_json}

abbrev pub properties_storage_folder : String
properties_storage_folder = "user/properties"

abbrev pub metadata_storage_folder : String
metadata_storage_folder = "cache/metadata"

-- A function of the folder that changes nothing there.
abbrev pub looking :
    {A : Type 0} → (Folder → Result IoError A) → Folder → Outcome IoError A × Folder
looking f folder = (returned (f folder), folder)

module _ {ResourceId : Type 0} (host : Host) (to_string : ResourceId → String) where
  -- `root.join(ARK_FOLDER).join(..).join(id.to_string())`
  abbrev pub path_of : String → String → ResourceId → String
  path_of root storage_folder id =
      host.join (host.join (host.join root ".ark") storage_folder) (to_string id)

  -- `?` on the end of a loop.
  abbrev pub io_stop : Stop IoError → Stop ArklibError
  io_stop = map_stop ArklibError.io

  abbrev pub found : Option String → Exec World ArklibError String
  found none = fail (ArklibError.io (record { kind = not_found; message = "File not found" }))
  found (some content) = pure content

  -- The latest version of a file and its content.
  unfoldable pub load_raw : String → Exec World ArklibError String
  load_raw storage = do
    file ← new host storage
    read_file ←
        raise ArklibError.io
          (in_folder host.enoent file.directory (looking (load (host.os file.directory) file)))
    content ← raise ArklibError.io (
        in_folder host.enoent file.directory
          (looking (open_version (host.os file.directory) read_file)))
    found content

  unfoldable pub load_raw_properties : String → ResourceId → Exec World ArklibError String
  unfolding load_raw
  load_raw_properties root id = load_raw (path_of root properties_storage_folder id)

  unfoldable pub load_raw_metadata : String → ResourceId → Exec World ArklibError String
  unfolding load_raw
  load_raw_metadata root id = load_raw (path_of root metadata_storage_folder id)

  -- A file that is made and changed, with what other processes do in each of the rounds.
  unfoldable pub change :
      {T : Type 0}
      → Serde T
      → (ℕ → Folder → Folder)
      → ℕ
      → String
      → (Option T → Option (Option T))
      → Exec World (Stop ArklibError) Unit
  unfolding modify_json
  change serde others rounds storage operator = do
    file ← raise failed (new host storage)
    raise io_stop (
        in_folder (failed host.enoent) file.directory
          (modify_json serde (host.os file.directory) file operator others rounds))

  module _ {N S : Type 0} ⦃e : Eq N⦄ (to_value : S → Option (Value N)) where
    -- The operator of `store_properties`: `to_value` is unwrapped, and it does not fail on a value.
    unfoldable pub merge_properties : S → Option (Value N) → Option (Option (Value N))
    merge_properties properties current = elim (to_value properties) [
      | none ↦ none
      | some new_value ↦ elim current [
        | some old_value ↦ some (some (merge old_value new_value))
        | none ↦ some (some new_value)
      ]
    ]

    unfoldable pub store_properties :
        Serde (Value N)
        → (ℕ → Folder → Folder)
        → ℕ
        → String
        → ResourceId
        → S
        → Exec World (Stop ArklibError) Unit
    unfolding change
    store_properties serde others rounds root id properties =
        change serde others rounds (path_of root properties_storage_folder id)
          (merge_properties properties)

  module _ {S : Type 0} where
    -- The operator of `store_metadata`.
    unfoldable pub replace_metadata : S → Option S → Option (Option S)
    replace_metadata metadata (some _) = some (some metadata)
    replace_metadata metadata none = some (some metadata)

    unfoldable pub store_metadata :
        Serde S
        → (ℕ → Folder → Folder)
        → ℕ
        → String
        → ResourceId
        → S
        → Exec World (Stop ArklibError) Unit
    unfolding change
    store_metadata serde others rounds root id metadata =
        change serde others rounds (path_of root metadata_storage_folder id)
          (replace_metadata metadata)
