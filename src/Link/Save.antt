-- ===== src/Link/Save.antt =====
-- data-link/src/lib.rs: `id`, `load` and `save` of a link, and fs-atomic-light/src/lib.rs.
use ark_rust.Base.{Eq, string_eq, ℕ, String, Bool, true, false, Option, none, some}
use ark_rust.Error.{
  ArklibError, Cause, from, serde_json_error, url_parse_error, IoError, Result, ok, err, returned,
}
use ark_rust.Exec.{Exec, ◌>>=◌, ◌>>◌, Stop, failed, pure, fail, raise, lift}
use ark_rust.Json.Value.{Value, value_eq}
use ark_rust.Atomic.File.{Folder, AtomicFile, ReadOnlyFile, load, compare_and_swap}
use ark_rust.Atomic.World.{World, Host, in_folder, read_file, write_file}
use ark_rust.Atomic.Create.{new}
use ark_rust.Atomic.Modify.{read_content}
use ark_rust.Atomic.ModifyJson.{Serde}
use ark_rust.Properties.Store.{
  looking, path_of, properties_storage_folder, load_raw_properties, store_properties,
  store_metadata,
}
use ark_rust.Link.Page.{OpenGraph, Web, get_preview, fetch_image}
use ark_rust.Link.Data.{LinkProperties, Link, to_value, of_value}

-- `temp_and_move` of fs-atomic-light/src/lib.rs, which writes a temporary file and copies it.
unfoldable pub temp_and_move :
    Host → String → String → String → String → Exec World ArklibError Unit
temp_and_move host temp_dir bytes dest_dir filename = do
  raise ArklibError.io (write_file host (host.join temp_dir filename) bytes)
  copied ← raise ArklibError.io (read_file host (host.join temp_dir filename))
  raise ArklibError.io (write_file host (host.join dest_dir filename) copied)

-- What lies outside: the crate `url`, the hash of a resource, and serde for the data of a page.
pub record Library (Url ResourceId Html N : Type 0) : Type 0 where
  pub as_str : Url → String
  pub from_str : String → Option Url
  pub from_bytes : String → Result ArklibError ResourceId
  pub to_string : ResourceId → String
  pub temp_dir : String
  pub web : Web Html
  pub values : Serde (Value N)
  pub graphs : Serde OpenGraph
  -- what other processes do in each round of a loop, and how many rounds there can be
  pub others : ℕ → Folder → Folder
  pub rounds : ℕ

module _ {Url ResourceId Html N : Type 0} ⦃e : Eq N⦄ (host : Host)
    (library : Library Url ResourceId Html N) where
  abbrev pub Step : Type 0 → Type 0
  Step = Exec World ArklibError

  -- `?` on a result of serde or of `Url::from_str`, which becomes `Parse`.
  abbrev pub parsed : {A : Type 0} → Cause → Option A → Step A
  parsed cause none = fail (from cause)
  parsed cause (some a) = pure a

  unfoldable pub id : Link Url → Step ResourceId
  id link = lift (returned (library.from_bytes (library.as_str link.url)))

  abbrev pub properties_of : Result IoError (Value N) → Option LinkProperties
  properties_of (ok value) = of_value value
  properties_of (err _) = none

  -- The latest version of a file.
  abbrev pub latest : AtomicFile → Step ReadOnlyFile
  latest file =
      raise ArklibError.io
        (in_folder host.enoent file.directory (looking (load (host.os file.directory) file)))

  unfoldable pub load_user_data : String → ResourceId → Step LinkProperties
  load_user_data root id = do
    file ← new host (path_of host library.to_string root properties_storage_folder id)
    current ← latest file
    text ← raise ArklibError.io (
        in_folder host.enoent file.directory
          (looking (read_content (host.os file.directory) current)))
    parsed serde_json_error (properties_of (library.values.from_reader text))

  unfoldable pub load_url : String → Step Url
  load_url path = do
    content ← raise ArklibError.io (read_file host path)
    parsed url_parse_error (library.from_str content)

  abbrev pub graph_of : Result IoError OpenGraph → Option OpenGraph
  graph_of (ok graph) = some graph
  graph_of (err _) = none

  -- The description: that of the user, or else one that the properties have.
  abbrev pub described : String → ResourceId → Option String → Step (Option String)
  described root id (some desc) = pure (some desc)
  described root id none = do
    bytes ← load_raw_properties host library.to_string root id
    graph_meta ← parsed serde_json_error (graph_of (library.graphs.from_reader bytes))
    pure graph_meta.description

  unfoldable pub load_link : String → String → Step (Link Url)
  unfolding load_url load_user_data
  load_link root filename = do
    url ← load_url (host.join root filename)
    id ← lift (returned (library.from_bytes (library.as_str url)))
    user_prop ← load_user_data root id
    description ← described root id user_prop.desc
    pure (record { url = url; prop = record { title = user_prop.title; desc = description } })

  abbrev pub swap : AtomicFile → ReadOnlyFile → String → Step Unit
  swap file current image = raise ArklibError.io (
      in_folder host.enoent file.directory (λ folder.
        let (result, folder') =
          compare_and_swap (host.os file.directory) file current image folder in
        (returned result, folder')))

  unfoldable pub save_preview : String → String → ResourceId → Step Unit
  save_preview root image_bytes id = do
    file ← new host (path_of host library.to_string root "cache/previews" id)
    current_preview ← latest file
    swap file current_preview image_bytes

  abbrev pub save_image : String → ResourceId → Option String → Exec World (Stop ArklibError) Unit
  save_image root id none = pure tt
  save_image root id (some bytes) = raise failed (save_preview root bytes id)

  -- The data of the page, where it could be had.
  abbrev pub save_graph :
      String → Bool → ResourceId → Result ArklibError OpenGraph → Exec World (Stop ArklibError) Unit
  save_graph root with_preview id (err _) = pure tt
  save_graph root false id (ok graph) =
      store_metadata host library.to_string library.graphs library.others library.rounds root id
        graph
  save_graph root true id (ok graph) = do
    store_metadata host library.to_string library.graphs library.others library.rounds root id graph
    image ← raise failed (lift (fetch_image library.web graph))
    save_image root id image

  unfoldable pub save : Link Url → String → Bool → Exec World (Stop ArklibError) Unit
  unfolding id temp_and_move save_preview
  save link root with_preview = do
    i ← raise failed (id link)
    raise failed
        (temp_and_move host library.temp_dir (library.as_str link.url) root (library.to_string i))
    store_properties host library.to_string (λ prop. some (to_value prop)) library.values
        library.others library.rounds root i link.prop
    save_graph root with_preview i (get_preview library.web (library.as_str link.url))
