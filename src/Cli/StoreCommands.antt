-- ===== src/Cli/StoreCommands.antt =====
-- ark-cli/src/commands/storage/list.rs, and commands/link/create.rs and load.rs.
use ark_rust.Base.{Eq, String, Bool, Option, none, some}
use ark_rust.Error.{ArklibError, IoError, Result, Outcome, ok, err, returned, panic}
use ark_rust.Exec.{Exec, ◌>>=◌, Stop, failed, unfinished, pure, fail, raise, lift}
use ark_rust.Index.State.{ResourceIndex}
use ark_rust.Atomic.World.{World, Host}
use ark_rust.Link.Data.{Link}
use ark_rust.Link.Save.{Library}
use ark_rust.Cli.Fault.{AppError}
use ark_rust.Cli.Storage.{StorageType, Storage, Terminal, Step, new_storage, load_storage}
use ark_rust.Cli.Listing
use ark_rust.Cli.Roots.{Shell, translate_storage, provide_root, chosen}
use ark_rust.Cli.FileCommands.{kind_or_file, found}
use ark_rust.Cli.Links.{create_link, load_by_path_or_id}

pub record StorageList : Type 0 where
  pub root_dir : Option String
  pub storage : Option String
  pub versions : Bool
  pub kind : Option StorageType

module _ {ResourceId : Type 0} ⦃e : Eq ResourceId⦄ (shell : Shell) (host : Host)
    (terminal : Terminal ResourceId) where
  abbrev pub provided_name : Option String → Step String
  provided_name (some storage) = pure storage
  provided_name none = fail (AppError.storage_creation_error "Storage was not provided")

  -- `storage.load()?`, which gives the storage with its ids.
  abbrev pub with_ids :
      Outcome AppError Unit × (Storage ResourceId × World)
      → Outcome AppError (Storage ResourceId) × World
  with_ids (returned (ok _), (storage, w)) = (returned (ok storage), w)
  with_ids (returned (err cause), (storage, w)) = (returned (err cause), w)
  with_ids (panic, (storage, w)) = (panic, w)

  -- The text that the command prints.
  unfoldable pub list_run : StorageList → Step String
  list_run self = do
    name ← provided_name self.storage
    at ← found name (translate_storage shell self.root_dir name)
    storage ← new_storage host terminal at.0 (chosen shell at.1 (kind_or_file self.kind))
    full ← (λ w. with_ids (load_storage host terminal storage w))
    Listing.list host terminal full self.versions

pub record Create : Type 0 where
  pub root_dir : Option String
  pub url : Option String
  pub title : Option String
  pub desc : Option String

pub record Load (ResourceId : Type 0) : Type 0 where
  pub root_dir : Option String
  pub file_path : Option String
  pub id : Option ResourceId

-- `ok_or_else`
abbrev pub required : AppError → Option String → Exec World (Stop AppError) String
required cause (some text) = pure text
required cause none = fail (failed cause)

module _ {Url ResourceId Html N : Type 0} ⦃e : Eq N⦄ ⦃i : Eq ResourceId⦄ (shell : Shell)
    (host : Host) (library : Library Url ResourceId Html N) (terminal : Terminal ResourceId)
    (message : ArklibError → String) (canonicalize : String → Result IoError String) where
  -- An error of the link is only printed, and the command succeeds: what it prints last.
  abbrev pub shown :
      (AppError → String)
      → Outcome (Stop AppError) Unit × World
      → Outcome (Stop AppError) String × World
  shown text (returned (ok _), w) = (returned (ok "Link saved successfully!"), w)
  shown text (returned (err (failed cause)), w) = (returned (ok (text cause)), w)
  shown text (returned (err unfinished), w) = (returned (err unfinished), w)
  shown text (panic, w) = (panic, w)

  unfoldable pub create_run : (AppError → String) → Create → Exec World (Stop AppError) String
  create_run text self = do
    root ← raise failed (lift (returned (provide_root shell self.root_dir)))
    url ← required (AppError.link_creation_error "Url was not provided") self.url
    title ← required (AppError.link_creation_error "Title was not provided") self.title
    (λ w.
        shown text
          (create_link host library terminal message canonicalize root url title self.desc w))

  -- The link that the command prints.
  unfoldable pub load_run : ResourceIndex ResourceId → Load ResourceId → Step (Link Url)
  load_run index self = do
    root ← lift (returned (provide_root shell self.root_dir))
    load_by_path_or_id host library terminal message canonicalize index root self.file_path self.id
