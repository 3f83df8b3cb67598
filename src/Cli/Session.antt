-- ===== src/Cli/Session.antt =====
-- ark-cli/src/commands/file: the command `read` after the command `append`, for a file of lines.
use ark_rust.Base.{Eq, string_eq, ℕ, String, Option, some, [], ◌∷◌, ◌++◌, ◌≡◌, refl, true, ◌∙◌}
use ark_rust.Error.{ok, returned}
use ark_rust.Map.{Map, get, get_new}
use ark_rust.Json.Value.{Value}
use ark_rust.Atomic.File.{Folder, AtomicFile}
use ark_rust.Atomic.World.{World, Host}
use ark_rust.Atomic.Create.{new}
use ark_rust.Atomic.Modify.{buffer}
use ark_rust.Atomic.ModifyJson.{Serde}
use ark_rust.Atomic.Settle.{IsReady}
use ark_rust.Cli.Utils.{raw}
use ark_rust.Cli.Storage.{StorageType, file, Terminal, exists, new_storage}
use ark_rust.Cli.Values.{append, read}
use ark_rust.Cli.Rows.{IsRow, AreRows, text_of, answer}
use ark_rust.Cli.Kept.{alone, lined, put, kept_append}
use ark_rust.Cli.Roots.{Shell, translate_storage, chosen}
use ark_rust.Cli.FileCommands.{Append, Read, kind_or_file, append_run, read_run}

module _ {ResourceId : Type 0} ⦃e : Eq ResourceId⦄ (shell : Shell) (host : Host)
    (terminal : Terminal ResourceId) (path : String) where
  -- A command that names a storage of lines at the path, and an id.
  pub record Names (root_dir storage text : String) (kind : Option StorageType) (id : ResourceId)
      : Type 0 where
    pub written : Option StorageType
    pub is_at : translate_storage shell (some root_dir) storage ≡ some (path, written)
    pub is_file : chosen shell written (kind_or_file kind) ≡ file
    pub parses : terminal.parse text ≡ some id

  storage_there :
      (w : World)
      → exists path w ≡ true
      → new_storage host terminal path file w ≡ (returned (ok (lined host terminal path [])), w)
  unfolding new_storage
  storage_there w there = rw (there, new_storage) refl

  pub read_run_at :
      (self : Read) (w : World) (id : ResourceId)
      → Names self.root_dir self.storage self.id self.kind id
      → exists path w ≡ true
      → read_run shell host terminal self w ≡ read host terminal (lined host terminal path []) id w
  unfolding read_run
  read_run_at self w id names there =
      rw (names.is_at, names.is_file, storage_there w there, names.parses, read_run) refl

  module _ {N : Type 0} (serde : Serde (Value N)) (n : ℕ) where
    append_run_at :
        (self : Append) (w : World) (id : ResourceId)
        → Names self.root_dir self.storage self.id self.kind id
        → self.format ≡ some raw
        → exists path w ≡ true
        → append_run shell host terminal serde (alone n) self w
          ≡ append host terminal serde (alone n) (lined host terminal path []) id self.content raw w
    unfolding append_run
    append_run_at self w id names is_raw there =
        rw (names.is_at, names.is_file, is_raw, storage_there w there, names.parses, append_run)
          refl

    pub append_run_kept :
        (self : Append) (atomic_file : AtomicFile) (w v : World) (folder : Folder)
        (r : IsReady (host.os path) atomic_file folder) (rows : Map ResourceId String)
        (id : ResourceId)
        → Names self.root_dir self.storage self.id self.kind id
        → self.format ≡ some raw
        → exists path w ≡ true
        → new host path w ≡ (returned (ok atomic_file), v)
        → get path v.folders ≡ some folder
        → buffer r.content ≡ text_of host terminal rows
        → AreRows host terminal rows
        → IsRow host terminal id self.content
        → (folder' : Folder) × (append_run shell host terminal serde (alone n) self w
            ≡ (returned (ok tt), put host terminal path [] v folder'))
          × (exists path (put host terminal path [] v folder') ≡ true)
          × ((i : ResourceId)
              → (w'' : World) × (read host terminal
                    (lined host terminal path [])
                    i
                    (put host terminal path [] v folder')
                  ≡ (answer host terminal i (get i (rows ++ (id, self.content) ∷ [])), w'')))
    append_run_kept self atomic_file w v folder r rows id names is_raw there makes found has all
          row =
        let (folder', done, reads) =
          kept_append host terminal path [] serde n atomic_file w v folder r rows id self.content
            makes found has all row in
        (
          folder',
          append_run_at self w id names is_raw there ∙ done,
          rw (get_new path folder' v.folders, exists) refl,
          reads,
        )

    read_run-append_run :
        (self : Append) (atomic_file : AtomicFile) (w v : World) (folder : Folder)
        (r : IsReady (host.os path) atomic_file folder) (rows : Map ResourceId String)
        (id : ResourceId)
        → Names self.root_dir self.storage self.id self.kind id
        → self.format ≡ some raw
        → exists path w ≡ true
        → new host path w ≡ (returned (ok atomic_file), v)
        → get path v.folders ≡ some folder
        → buffer r.content ≡ text_of host terminal rows
        → AreRows host terminal rows
        → IsRow host terminal id self.content
        → (w' : World) × (append_run shell host terminal serde (alone n) self w
            ≡ (returned (ok tt), w'))
          × ((later : Read) (i : ResourceId)
              → Names later.root_dir later.storage later.id later.kind i
              → (w'' : World) × (read_run shell host terminal later w'
                  ≡ (answer host terminal i (get i (rows ++ (id, self.content) ∷ [])), w'')))
    read_run-append_run self atomic_file w v folder r rows id names is_raw there makes found has all
          row =
        let (folder', done, still, reads) =
          append_run_kept self atomic_file w v folder r rows id names is_raw there makes found has
            all row in
        (
          put host terminal path [] v folder',
          done,
          λ later i later_names.
              let (w'', shows) = reads i in
              (
                w'',
                read_run_at later (put host terminal path [] v folder') i later_names still ∙ shows,
              ),
        )
