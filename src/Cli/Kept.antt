-- ===== src/Cli/Kept.antt =====
-- ark-cli/src/models/storage.rs: `read` after `append` and after `insert`, for a file of lines.
use Prim.Native.String.{◌++◌ as push_str}
use text.Mathlib.TextLemmas.{nil-append}
use ark_rust.Base.{
  Eq, string_eq, ◌≟◌, ℕ, suc, String, none, some, List, [], ◌∷◌, ◌++◌, ◌≡◌, sym, ap, ◌∙◌,
  All-append, arith, ite,
}
use ark_rust.Base.Text.{lines}
use ark_rust.Error.{ok, returned}
use ark_rust.Map.{Map, get, insert, get_new}
use ark_rust.Json.Value.{Value}
use ark_rust.Atomic.File.{Folder, ReadOnlyFile, AtomicFile, load}
use ark_rust.Atomic.World.{World, Host}
use ark_rust.Atomic.Create.{new, dotted, new_again}
use ark_rust.Atomic.Modify.{modify, buffer, read_content}
use ark_rust.Atomic.ModifyJson.{Serde}
use ark_rust.Atomic.Settle.{IsReady, modify-IsReady}
use ark_rust.Cli.Utils.{raw, Rounds, file_append, file_insert}
use ark_rust.Cli.Storage.{file, Storage, Terminal}
use ark_rust.Cli.Values
use ark_rust.Cli.Values.{id_line, read_lines, read, append}
use ark_rust.Cli.Rows.{IsRow, AreRows, text_of, text_of_last, answer, read_lines-text_of}

-- No other process interferes.
abbrev pub alone : ℕ → Rounds
alone n = record { others = λ round f. f; count = suc n }

module _ {ResourceId : Type 0} ⦃e : Eq ResourceId⦄ (host : Host) (terminal : Terminal ResourceId)
    (path : String) (files : List ResourceId) where
  -- A storage of the type `file`.
  abbrev pub lined : Storage ResourceId
  lined = record { path = path; storage_type = file; files = files }

  abbrev pub put : World → Folder → World
  put v folder = record v { folders = insert path folder v.folders }

  read_there :
      (atomic_file : AtomicFile) (w v : World) (folder : Folder) (now : ReadOnlyFile)
      (text : String) (id : ResourceId)
      → new host path w ≡ (returned (ok atomic_file), v)
      → atomic_file.directory ≡ path
      → load (host.os path) atomic_file folder ≡ ok now
      → read_content (host.os path) now folder ≡ ok text
      → (w' : World) × (read host terminal lined id (put v folder)
          ≡ (read_lines host terminal id (lines text), w'))
  unfolding read
  read_there atomic_file w v folder now text id makes at loads reads =
      let twice : Map String Folder = insert path folder (insert path folder v.folders) in
      (
        record v { folders = insert path folder twice },
        ground (
          arith,
          new_again host path atomic_file w v folder (insert path folder v.folders) makes
              (get_new path folder v.folders),
          get_new path folder v.folders,
          get_new path folder (insert path folder v.folders),
        ),
      )

  module _ {N : Type 0} (serde : Serde (Value N)) (n : ℕ) where
    append_there :
        (atomic_file : AtomicFile) (w v : World) (folder folder' : Folder) (id : ResourceId)
        (content : String)
        → new host path w ≡ (returned (ok atomic_file), v)
        → atomic_file.directory ≡ path
        → get path v.folders ≡ some folder
        → modify
            (host.os path)
            atomic_file
            (λ current. push_str current (id_line host terminal id content))
            (λ round f. f)
            (suc n)
            folder
          ≡ (some (ok tt), folder')
        → append host terminal serde (alone n) lined id content raw w
          ≡ (returned (ok tt), put v folder')
    unfolding append file_append
    append_there atomic_file w v folder folder' id content makes at there changes = ground arith

    insert_there :
        (atomic_file : AtomicFile) (w v : World) (folder folder' : Folder) (id : ResourceId)
        (content : String)
        → new host path w ≡ (returned (ok atomic_file), v)
        → atomic_file.directory ≡ path
        → get path v.folders ≡ some folder
        → modify
            (host.os path)
            atomic_file
            (λ current. id_line host terminal id content)
            (λ round f. f)
            (suc n)
            folder
          ≡ (some (ok tt), folder')
        → Values.insert host terminal serde (alone n) lined id content raw w
          ≡ (returned (ok tt), put v folder')
    unfolding Values.insert file_insert
    insert_there atomic_file w v folder folder' id content makes at there changes = ground arith

    pub kept_append :
        (atomic_file : AtomicFile) (w v : World) (folder : Folder)
        (r : IsReady (host.os path) atomic_file folder) (rows : Map ResourceId String)
        (id : ResourceId) (content : String)
        → new host path w ≡ (returned (ok atomic_file), v)
        → get path v.folders ≡ some folder
        → buffer r.content ≡ text_of host terminal rows
        → AreRows host terminal rows
        → IsRow host terminal id content
        → (folder' : Folder) × (append host terminal serde (alone n) lined id content raw w
            ≡ (returned (ok tt), put v folder'))
          × ((i : ResourceId)
              → (w'' : World) × (read host terminal lined i (put v folder')
                  ≡ (answer host terminal i (get i (rows ++ (id, content) ∷ [])), w'')))
    kept_append atomic_file w v folder r rows id content makes there has all row =
        let (stem, ends, at) = dotted host path atomic_file w v makes in
        let (folder', now, done, loads, reads) =
          modify-IsReady (host.os path) atomic_file
            (λ current. push_str current (id_line host terminal id content)) n folder r in
        (
          folder',
          append_there atomic_file w v folder folder' id content makes at there done,
          λ i.
              let (w'', shows) = read_there atomic_file w v folder' now _ i makes at loads reads in
              (
                w'',
                shows
                    ∙ ap (λ t. (read_lines host terminal i (lines t), w''))
                        (ap (λ t. push_str t (id_line host terminal id content)) has
                          ∙ sym (text_of_last host terminal rows id content))
                    ∙ ap (λ o. (o, w''))
                        (read_lines-text_of host terminal i (rows ++ (id, content) ∷ [])
                          (All-append _ rows ((id, content) ∷ []) all (row, tt))),
              ),
        )

    -- Where no process interferes and the file of a storage of lines is ready for another version
    -- and has the text of some pairs, append of a raw value succeeds, and read then gives for
    -- each id the first of its values in these pairs with the new one at their end, or the error
    -- that there is none, where the pairs can be printed and read back.
    read-append :
        (atomic_file : AtomicFile) (w v : World) (folder : Folder)
        (r : IsReady (host.os path) atomic_file folder) (rows : Map ResourceId String)
        (id : ResourceId) (content : String)
        → new host path w ≡ (returned (ok atomic_file), v)
        → get path v.folders ≡ some folder
        → buffer r.content ≡ text_of host terminal rows
        → AreRows host terminal rows
        → IsRow host terminal id content
        → (w' : World) × (append host terminal serde (alone n) lined id content raw w
            ≡ (returned (ok tt), w'))
          × ((i : ResourceId)
              → (w'' : World) × (read host terminal lined i w'
                  ≡ (answer host terminal i (get i (rows ++ (id, content) ∷ [])), w'')))
    read-append atomic_file w v folder r rows id content makes there has all row =
        let (folder', done, reads) =
          kept_append atomic_file w v folder r rows id content makes there has all row in
        (put v folder', done, reads)

    -- Where no process interferes and the file of a storage of lines is ready for another
    -- version, insert of a raw value succeeds, and read then gives this value for its id and for
    -- every other id the error that there is none, where the pair can be printed and read back.
    pub read-insert :
        (atomic_file : AtomicFile) (w v : World) (folder : Folder)
        (r : IsReady (host.os path) atomic_file folder) (id : ResourceId) (content : String)
        → new host path w ≡ (returned (ok atomic_file), v)
        → get path v.folders ≡ some folder
        → IsRow host terminal id content
        → (w' : World) × (Values.insert host terminal serde (alone n) lined id content raw w
            ≡ (returned (ok tt), w'))
          × ((i : ResourceId)
              → (w'' : World) × (read host terminal lined i w'
                  ≡ (answer host terminal i (ite (id ≟ i) (some content) none), w'')))
    unfolding get
    read-insert atomic_file w v folder r id content makes there row =
        let (stem, ends, at) = dotted host path atomic_file w v makes in
        let (folder', now, done, loads, reads) =
          modify-IsReady (host.os path) atomic_file (λ current. id_line host terminal id content) n
            folder r in
        (
          put v folder',
          insert_there atomic_file w v folder folder' id content makes at there done,
          λ i.
              let (w'', shows) = read_there atomic_file w v folder' now _ i makes at loads reads in
              (
                w'',
                shows
                    ∙ ap (λ t. (read_lines host terminal i (lines t), w''))
                        (sym (text_of_last host terminal [] id content ∙ nil-append _))
                    ∙ ap (λ o. (o, w''))
                        (read_lines-text_of host terminal i ((id, content) ∷ []) (row, tt)),
              ),
        )
