-- ===== src/Cli/Links.antt =====
-- ark-cli/src/commands/link/utils.rs: the making and the loading of a link.
use Prim.Native.String.{◌++◌ as push_str}
use ark_rust.Base.{Eq, string_eq, ◌≟◌, String, true, Option, none, some, ite}
use ark_rust.Error.{ArklibError, IoError, Outcome, Result, ok, err, returned, panic}
use ark_rust.Exec.{Exec, ◌>>=◌, Stop, failed, map_stop, pure, fail, raise, lift}
use ark_rust.Map
use ark_rust.Index.State.{ResourceIndex}
use ark_rust.Atomic.World.{World, Host}
use ark_rust.Link.Data.{Link, new_link}
use ark_rust.Link.Save.{Library, save, load_link}
use ark_rust.Cli.Fault.{AppError}
use ark_rust.Cli.Storage.{Terminal, Step}

module _ {Url ResourceId Html N : Type 0} ⦃e : Eq N⦄ ⦃i : Eq ResourceId⦄ (host : Host)
    (library : Library Url ResourceId Html N) (terminal : Terminal ResourceId)
    (message : ArklibError → String) (canonicalize : String → Result IoError String) where
  abbrev pub parsed_url : Option Url → Exec World (Stop AppError) Url
  parsed_url none = fail (failed (AppError.link_creation_error "Invalid url"))
  parsed_url (some url) = pure url

  unfoldable pub create_link :
      String → String → String → Option String → Exec World (Stop AppError) Unit
  unfolding save
  create_link root url title desc = do
    parsed ← parsed_url (library.from_str url)
    raise (map_stop (λ cause. AppError.link_creation_error (message cause)))
        (save host library (new_link parsed title desc) root true)

  -- `index.id2path[&id]`, which panics on an id that the index does not have.
  abbrev pub indexed :
      ResourceIndex ResourceId → Option ResourceId → Outcome AppError (Option String)
  indexed index none = returned (ok none)
  indexed index (some id) = elim (Map.get id index.id2path) [
    | none ↦ panic
    | some path ↦ returned (ok (some path))
  ]

  abbrev pub printed_id : Option ResourceId → String
  printed_id none = ""
  printed_id (some id) = terminal.to_string id

  abbrev pub other_path : String → Option ResourceId → String → String
  other_path path id path2 = push_str "Path " (
      push_str (terminal.debug_path path) (
        push_str " was requested. But id "
          (push_str (printed_id id) (push_str " maps to path " (terminal.debug_path path2)))))

  -- The path to load: that of the user, that of the index, or one that both agree on.
  abbrev pub chosen_path :
      Option ResourceId → Option String → Option String → Result AppError String
  chosen_path id (some path) (some path2) = elim (canonicalize path) [
    | err cause ↦ err (AppError.io_error cause)
    | ok found ↦
        ite (found ≟ path2) (ok path) (err (AppError.link_load_error (other_path path id path2)))
  ]
  chosen_path id (some path) none = ok path
  chosen_path id none (some path) = ok path
  chosen_path id none none = err (AppError.link_load_error "Provide a path or id for request.")

  -- The index of the root is read only where an id is given.
  unfoldable pub load_by_path_or_id :
      ResourceIndex ResourceId → String → Option String → Option ResourceId → Step (Link Url)
  unfolding load_link
  load_by_path_or_id index root file_path id = do
    path_from_index ← lift (indexed index id)
    path ← lift (returned (chosen_path id file_path path_from_index))
    raise AppError.arklib_error (load_link host library root path)
