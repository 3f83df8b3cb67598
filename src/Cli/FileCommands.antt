-- ===== src/Cli/FileCommands.antt =====
-- ark-cli/src/commands/file: the commands `append`, `insert` and `read`.
use ark_rust.Base.{Eq, String, Option, none, some}
use ark_rust.Error.{ArklibError, Outcome, ok, returned, panic}
use ark_rust.Exec.{Exec, ◌>>=◌, Stop, failed, pure, fail, raise, lift}
use ark_rust.Json.Value.{Value}
use ark_rust.Atomic.World.{World, Host}
use ark_rust.Atomic.ModifyJson.{Serde}
use ark_rust.Cli.Fault.{AppError}
use ark_rust.Cli.Utils.{Format, raw, Rounds}
use ark_rust.Cli.Storage.{StorageType, file, Terminal, Step, new_storage}
use ark_rust.Cli.Values
use ark_rust.Cli.Roots.{Shell, translate_storage, chosen}

pub record Append : Type 0 where
  pub root_dir : String
  pub storage : String
  pub id : String
  pub content : String
  pub format : Option Format
  pub kind : Option StorageType

pub record Insert : Type 0 where
  pub root_dir : String
  pub storage : String
  pub id : String
  pub content : String
  pub format : Option Format
  pub kind : Option StorageType

pub record Read : Type 0 where
  pub root_dir : String
  pub storage : String
  pub id : String
  pub kind : Option StorageType

-- `match self.kind`, where a file is the default.
abbrev pub kind_or_file : Option StorageType → StorageType
kind_or_file (some t) = t
kind_or_file none = file

-- `self.format.unwrap()`
abbrev pub unwrapped : Option Format → Outcome AppError Format
unwrapped (some format) = returned (ok format)
unwrapped none = panic

abbrev pub raw_or : Option Format → Format
raw_or (some format) = format
raw_or none = raw

-- `.ok_or(AppError::StorageNotFound(..))?`
abbrev pub found :
    String → Option (String × Option StorageType) → Step (String × Option StorageType)
found storage (some at) = pure at
found storage none = fail (AppError.storage_not_found storage)

abbrev pub resource : {ResourceId : Type 0} → Option ResourceId → Step ResourceId
resource (some id) = pure id
resource none = fail (AppError.arklib_error ArklibError.parse)

module _ {ResourceId N : Type 0} ⦃e : Eq ResourceId⦄ (shell : Shell) (host : Host)
    (terminal : Terminal ResourceId) (serde : Serde (Value N)) (rounds : Rounds) where
  unfoldable pub append_run : Append → Exec World (Stop AppError) Unit
  append_run self = do
    at ←
        raise failed
          (found self.storage (translate_storage shell (some self.root_dir) self.storage))
    format ← raise failed (lift (unwrapped self.format))
    storage ←
        raise failed (new_storage host terminal at.0 (chosen shell at.1 (kind_or_file self.kind)))
    resource_id ← raise failed (resource (terminal.parse self.id))
    Values.append host terminal serde rounds storage resource_id self.content format

  unfoldable pub insert_run : Insert → Exec World (Stop AppError) Unit
  insert_run self = do
    at ←
        raise failed
          (found self.storage (translate_storage shell (some self.root_dir) self.storage))
    storage ←
        raise failed (new_storage host terminal at.0 (chosen shell at.1 (kind_or_file self.kind)))
    resource_id ← raise failed (resource (terminal.parse self.id))
    Values.insert host terminal serde rounds storage resource_id self.content (raw_or self.format)

module _ {ResourceId : Type 0} ⦃e : Eq ResourceId⦄ (shell : Shell) (host : Host)
    (terminal : Terminal ResourceId) where
  -- The value that the command prints.
  unfoldable pub read_run : Read → Step String
  read_run self = do
    at ← found self.storage (translate_storage shell (some self.root_dir) self.storage)
    storage ← new_storage host terminal at.0 (chosen shell at.1 (kind_or_file self.kind))
    resource_id ← resource (terminal.parse self.id)
    Values.read host terminal storage resource_id
