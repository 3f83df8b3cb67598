-- ===== src/Properties/RoundTrip.antt =====
-- `load_raw_properties` after `store_properties` of fs-properties/src/lib.rs, and the same for the
-- metadata of fs-metadata/src/lib.rs.
use ark_rust.Base.{Eq, string_eq, ℕ, suc, String, Option, none, some, ◌≡◌, arith}
use ark_rust.Error.{ok, returned}
use ark_rust.Map.{Map, get, insert, get_new}
use ark_rust.Json.Value.{Value, value_eq}
use ark_rust.Json.Merge.{merge}
use ark_rust.Atomic.File.{Folder, ReadOnlyFile, AtomicFile, load}
use ark_rust.Atomic.World.{World, Host}
use ark_rust.Atomic.Create.{new, new_again, dotted}
use ark_rust.Atomic.Modify.{open_version, read_content}
use ark_rust.Atomic.ModifyJson.{Serde, value_of, new_text}
use ark_rust.Atomic.Settle.{IsReady, modify_json-IsReady}
use ark_rust.Properties.Store.{
  path_of, properties_storage_folder, metadata_storage_folder, load_raw, load_raw_properties,
  load_raw_metadata, change, merge_properties, store_properties, replace_metadata, store_metadata,
}

module _ {ResourceId : Type 0} (host : Host) (to_string : ResourceId → String) where
  opened :
      (file : ReadOnlyFile) (dir text : String) (folder : Folder)
      → read_content (host.os dir) file folder ≡ ok text
      → open_version (host.os dir) file folder ≡ ok (some text)
  unfolding read_content
  opened file dir text folder h = ground arith

  -- The world with another folder.
  abbrev put : World → String → Folder → World
  put v dir folder = record v { folders = insert dir folder v.folders }

  load_raw_there :
      (storage : String) (file : AtomicFile) (w v : World) (folder : Folder) (now : ReadOnlyFile)
      (text : String)
      → new host storage w ≡ (returned (ok file), v)
      → file.directory ≡ storage
      → load (host.os storage) file folder ≡ ok now
      → read_content (host.os storage) now folder ≡ ok text
      → (w' : World) × (load_raw host to_string storage (put v storage folder)
          ≡ (returned (ok text), w'))
  unfolding load_raw
  load_raw_there storage file w v folder now text makes at loads reads =
      let twice : Map String Folder = insert storage folder (insert storage folder v.folders) in
      (
        record v { folders = insert storage folder twice },
        ground (
          arith,
          new_again host storage file w v folder (insert storage folder v.folders) makes
              (get_new storage folder v.folders),
          get_new storage folder v.folders,
          get_new storage folder (insert storage folder v.folders),
          opened now storage text folder reads,
        ),
      )

  module _ {T : Type 0} (serde : Serde T) where
    change-load_raw :
        (operator : Option T → Option (Option T)) (n : ℕ) (storage : String) (file : AtomicFile)
        (w v : World) (folder : Folder) (r : IsReady (host.os storage) file folder) (text : String)
        → new host storage w ≡ (returned (ok file), v)
        → get storage v.folders ≡ some folder
        → new_text serde operator r.content ≡ returned (ok text)
        → (w' w'' : World) × (change host to_string serde (λ round f. f) (suc n) storage operator w
            ≡ (returned (ok tt), w'))
          × (load_raw host to_string storage w' ≡ (returned (ok text), w''))
    unfolding change
    change-load_raw operator n storage file w v folder r text makes there writes =
        let (stem, ends, at) = dotted host storage file w v makes in
        let (folder', now, done, loads, reads) =
          modify_json-IsReady serde (host.os storage) file operator n folder r text writes in
        let (w'', raw) = load_raw_there storage file w v folder' now text makes at loads reads in
        (put v storage folder', w'', ground (arith, done), raw)

  -- What is stored over the properties that are there.
  abbrev pub merged : {N : Type 0} ⦃e : Eq N⦄ → Option (Value N) → Value N → Value N
  merged none value = value
  merged (some old) value = merge old value

  merged_text :
      {N S : Type 0} ⦃e : Eq N⦄ (to_value : S → Option (Value N)) (serde : Serde (Value N))
      (properties : S) (content : Option String) (current : Option (Value N)) (value : Value N)
      (text : String)
      → value_of serde content ≡ ok current
      → to_value properties ≡ some value
      → serde.to_writer (some (merged current value)) ≡ ok text
      → new_text serde (merge_properties host to_string to_value properties) content
        ≡ returned (ok text)
  unfolding merge_properties
  merged_text to_value serde properties content none value text parses converts writes =
      ground arith
  merged_text to_value serde properties content (some old) value text parses converts writes =
      ground arith

  replaced_text :
      {S : Type 0} (serde : Serde S) (metadata : S) (content : Option String) (current : Option S)
      (text : String)
      → value_of serde content ≡ ok current
      → serde.to_writer (some metadata) ≡ ok text
      → new_text serde (replace_metadata host to_string metadata) content ≡ returned (ok text)
  unfolding replace_metadata
  replaced_text serde metadata content none text parses writes = ground arith
  replaced_text serde metadata content (some old) text parses writes = ground arith

  -- Where no process interferes and the folder of the resource is ready for another version,
  -- store_properties succeeds in one round, and load_raw_properties then gives the text of the
  -- earlier properties merged with the new ones, or of the new ones where there are none, if the
  -- earlier content can be read and the text written.
  pub load_raw_properties-store :
      {N S : Type 0} ⦃e : Eq N⦄ (to_value : S → Option (Value N)) (serde : Serde (Value N)) (n : ℕ)
      (root : String) (id : ResourceId) (properties : S) (file : AtomicFile) (w v : World)
      (folder : Folder)
      (r : IsReady (host.os (path_of host to_string root properties_storage_folder id)) file folder)
      (current : Option (Value N)) (value : Value N) (text : String)
      → new host (path_of host to_string root properties_storage_folder id) w
        ≡ (returned (ok file), v)
      → get (path_of host to_string root properties_storage_folder id) v.folders ≡ some folder
      → value_of serde r.content ≡ ok current
      → to_value properties ≡ some value
      → serde.to_writer (some (merged current value)) ≡ ok text
      → (w' w'' : World) × (store_properties host to_string to_value serde
            (λ round f. f)
            (suc n)
            root
            id
            properties
            w
          ≡ (returned (ok tt), w'))
        × (load_raw_properties host to_string root id w' ≡ (returned (ok text), w''))
  unfolding store_properties load_raw_properties merge_properties
  load_raw_properties-store to_value serde n root id properties file w v folder r current value text
        makes there parses converts writes =
      change-load_raw serde (merge_properties host to_string to_value properties) n
        (path_of host to_string root properties_storage_folder id) file w v folder r text makes
        there
        (merged_text to_value serde properties r.content current value text parses converts writes)

  -- Where no process interferes and the folder of the resource is ready for another version,
  -- store_metadata succeeds in one round, and load_raw_metadata then gives the text of the new
  -- metadata alone, if the earlier content can be read and the text written.
  load_raw_metadata-store :
      {S : Type 0} (serde : Serde S) (n : ℕ) (root : String) (id : ResourceId) (metadata : S)
      (file : AtomicFile) (w v : World) (folder : Folder)
      (r : IsReady (host.os (path_of host to_string root metadata_storage_folder id)) file folder)
      (current : Option S) (text : String)
      → new host (path_of host to_string root metadata_storage_folder id) w
        ≡ (returned (ok file), v)
      → get (path_of host to_string root metadata_storage_folder id) v.folders ≡ some folder
      → value_of serde r.content ≡ ok current
      → serde.to_writer (some metadata) ≡ ok text
      → (w' w'' : World) × (store_metadata host to_string serde
            (λ round f. f)
            (suc n)
            root
            id
            metadata
            w
          ≡ (returned (ok tt), w'))
        × (load_raw_metadata host to_string root id w' ≡ (returned (ok text), w''))
  unfolding store_metadata load_raw_metadata
  load_raw_metadata-store serde n root id metadata file w v folder r current text makes there parses
        writes =
      change-load_raw serde (replace_metadata host to_string metadata) n
        (path_of host to_string root metadata_storage_folder id) file w v folder r text makes there
        (replaced_text serde metadata r.content current text parses writes)
