-- ===== src/Atomic/Settle.antt =====
-- `modify_json` of fs-atomic-versions/src/atomic/mod.rs, where no other process interferes.
use Prim.Native.String.{◌++◌ as push_str}
use ark_rust.Base.{
  some, string_eq, ℕ, ◌+◌, ◌≤◌, ◌^◌, suc, String, false, Option, none, ◌≡◌, All, arith,
}
use ark_rust.Error.{ok, returned}
use ark_rust.Atomic.File.{
  Folder, ReadOnlyFile, AtomicFile, Os, load, compare_and_swap, name, path, has_name,
}
use ark_rust.Atomic.Latest.{IsPlaced, IsBelow}
use ark_rust.Atomic.Names.{parse-name}
use ark_rust.Atomic.Swap.{swapped, load-compare_and_swap}
use ark_rust.Atomic.Progress.{compare_and_swap_runs}
use ark_rust.Atomic.Modify.{
  modify, buffer, open_version, read_content, read_linked, read_content-modify,
}
use ark_rust.Atomic.ModifyJson.{Serde, new_text, modify_json}

-- A folder whose latest version is read and can be followed by another one: the disk has no fault,
-- the paths have the versions of their names, no name exceeds the latest version, the next name is
-- free, the prefix ends with a dot, and the version is far from 2^64.
pub record IsReady (os : Os) (file : AtomicFile) (folder : Folder) : Type 0 where
  pub latest : ReadOnlyFile
  pub content : Option String
  pub stem : String
  pub placed : All IsPlaced folder
  pub readable : os.read_dir ≡ none
  pub syncs : os.sync_data ≡ none
  pub links : os.hard_link ≡ none
  pub free : has_name (name file (latest.version + 1)) folder ≡ false
  pub under : IsBelow latest.version folder
  pub dotted : file.prefix ≡ push_str stem "."
  pub small : latest.version + 11 ≤ 2 ^ 64
  pub loads : load os file folder ≡ ok latest
  pub opens : open_version os latest folder ≡ ok content

module _ {T : Type 0} (serde : Serde T) where
  modify_json_round :
      (os : Os) (file : AtomicFile) (operator : Option T → Option (Option T)) (n : ℕ)
      (folder folder' : Folder) (r : IsReady os file folder) (text : String)
      → new_text serde operator r.content ≡ returned (ok text)
      → compare_and_swap os file r.latest text folder ≡ (ok tt, folder')
      → modify_json serde os file operator (λ round f. f) (suc n) folder
        ≡ (returned (ok tt), folder')
  unfolding modify_json
  modify_json_round os file operator n folder folder' r text makes swaps =
      rw (r.loads, modify_json) (rw r.opens (rw makes (ground (arith, swaps))))

  -- One round is enough, and the latest version then has the new text.
  pub modify_json-IsReady :
      (os : Os) (file : AtomicFile) (operator : Option T → Option (Option T)) (n : ℕ)
      (folder : Folder) (r : IsReady os file folder) (text : String)
      → new_text serde operator r.content ≡ returned (ok text)
      → (folder' : Folder) × (now : ReadOnlyFile) × (modify_json serde os file operator
            (λ round f. f)
            (suc n)
            folder
          ≡ (returned (ok tt), folder'))
        × (load os file folder' ≡ ok now)
        × (read_content os now folder' ≡ ok text)
  modify_json-IsReady os file operator n folder r text makes =
      let (folder', swaps) =
        compare_and_swap_runs os file r.latest text folder r.placed r.readable r.syncs r.links
          r.free r.under in
      let (version, rest, found, le, is, pruned, below) =
        swapped os file r.latest text folder folder' r.placed
          (parse-name file r.stem (r.latest.version + 1) r.dotted (omega (arith, r.small))) r.small
          swaps in
      (
        folder',
        record { version = r.latest.version + 1; path = path file (r.latest.version + 1) },
        modify_json_round os file operator n folder folder' r text makes swaps,
        load-compare_and_swap os file r.latest text r.stem folder folder' r.placed r.dotted r.small
            swaps,
        rw is (read_linked os file r.latest text rest),
      )

-- The same for `modify`.
pub modify-IsReady :
    (os : Os) (file : AtomicFile) (operator : String → String) (n : ℕ) (folder : Folder)
    (r : IsReady os file folder)
    → (folder' : Folder) × (now : ReadOnlyFile) × (modify os file operator
          (λ round f. f)
          (suc n)
          folder
        ≡ (some (ok tt), folder'))
      × (load os file folder' ≡ ok now)
      × (read_content os now folder' ≡ ok (operator (buffer r.content)))
modify-IsReady os file operator n folder r =
    read_content-modify os file operator n folder r.latest r.content r.stem r.placed r.readable
      r.syncs r.links r.free r.under r.dotted r.small r.loads r.opens
