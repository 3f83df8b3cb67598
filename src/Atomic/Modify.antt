-- ===== src/Atomic/Modify.antt =====
-- fs-atomic-versions/src/atomic: the reading of a `ReadOnlyFile`, and `modify` of mod.rs. What other
-- processes do to the folder between the reading and the swap is a parameter, round by round.
use Prim.Native.String.{◌++◌ as push_str}
use ark_rust.Base.{
  ◌≟◌, string_eq, ℕ, ◌+◌, ◌≤◌, ◌^◌, zero, suc, String, Bool, true, false, ite, Option, none, some,
  [], ◌∷◌, ◌==◌, ◌≡◌, refl, if◌then◌else◌, All, arith,
}
use ark_rust.Error.{IoError, ErrorKind, not_found, already_exists, Result, ok, err}
use ark_rust.Atomic.File.{
  Folder, ReadOnlyFile, AtomicFile, Os, load, compare_and_swap, name, path, has_name,
}
use ark_rust.Atomic.Names.{parse-name}
use ark_rust.Atomic.Latest.{IsPlaced, IsBelow}
use ark_rust.Atomic.Swap.{linked, swapped, load-compare_and_swap}
use ark_rust.Atomic.Progress.{compare_and_swap_runs}

-- `File::open` of a path, and the content of the file.
unfoldable pub content_at : Os → String → Folder → Result IoError String
content_at os p [] = err os.enoent
content_at os p (entry ∷ rest) =
    let other = content_at os p rest in ite (entry.path ≟ p) (ok entry.content) other

-- `open`, with the content that is read from it; version 0 has no file.
unfoldable pub open_version : Os → ReadOnlyFile → Folder → Result IoError (Option String)
unfolding content_at
open_version os file folder =
    if file.version == 0 then ok none else elim (content_at os file.path folder) [
      | err cause ↦ err cause
      | ok content ↦ ok (some content)
    ]

unfoldable pub read_content : Os → ReadOnlyFile → Folder → Result IoError String
unfolding open_version
read_content os file folder = elim (open_version os file folder) [
  | ok none ↦ err (record { kind = not_found; message = "File not found" })
  | ok (some content) ↦ ok content
  | err cause ↦ err cause
]

abbrev pub buffer : Option String → String
buffer none = ""
buffer (some content) = content

-- Whether the loop starts again after a swap.
abbrev pub is_retry : ErrorKind → Bool
is_retry already_exists = true
is_retry _ = false

abbrev pub retries : Result IoError Unit → Bool
retries (ok _) = false
retries (err cause) = is_retry cause.kind

-- `modify`, with fuel for its rounds; `none` is a loop that is not over.
unfoldable pub modify :
    Os
    → AtomicFile
    → (String → String)
    → (ℕ → Folder → Folder)
    → ℕ
    → Folder
    → Option (Result IoError Unit) × Folder
unfolding open_version
modify os file operator others zero folder = (none, folder)
modify os file operator others (suc n) folder = elim (load os file folder) [
  | err cause ↦ (some (err cause), folder)
  | ok latest ↦ elim (open_version os latest folder) [
    | err cause ↦ (some (err cause), folder)
    | ok content ↦
        let (result, after) =
          compare_and_swap os file latest (operator (buffer content)) (others n folder) in
        let again = modify os file operator others n after in
        if retries result then again else (some result, after)
  ]
]

pub read_linked :
    (os : Os) (file : AtomicFile) (current : ReadOnlyFile) (content : String) (rest : Folder)
    → read_content os
        (record { version = current.version + 1; path = path file (current.version + 1) })
        (linked os file current content ∷ rest)
      ≡ ok content
unfolding read_content content_at
read_linked os file current content rest = ground arith

modify_round :
    (os : Os) (file : AtomicFile) (operator : String → String) (n : ℕ) (folder folder' : Folder)
    (latest : ReadOnlyFile) (content : Option String)
    → load os file folder ≡ ok latest
    → open_version os latest folder ≡ ok content
    → compare_and_swap os file latest (operator (buffer content)) folder ≡ (ok tt, folder')
    → modify os file operator (λ round f. f) (suc n) folder ≡ (some (ok tt), folder')
unfolding modify
modify_round os file operator n folder folder' latest content loads opens swaps =
    rw (loads, modify) (rw opens (rw swaps refl))

-- Where no process interferes and the disk has no fault, modify succeeds in one round, and the
-- file that load gives then has what the operator makes of the content before, where the paths
-- have the versions of their names, no name exceeds the version that was loaded, the next name is
-- free, the prefix ends with a dot, and the version is far from 2^64.
pub read_content-modify :
    (os : Os) (file : AtomicFile) (operator : String → String) (n : ℕ) (folder : Folder)
    (latest : ReadOnlyFile) (content : Option String) (stem : String)
    → All IsPlaced folder
    → os.read_dir ≡ none
    → os.sync_data ≡ none
    → os.hard_link ≡ none
    → has_name (name file (latest.version + 1)) folder ≡ false
    → IsBelow latest.version folder
    → file.prefix ≡ push_str stem "."
    → latest.version + 11 ≤ 2 ^ 64
    → load os file folder ≡ ok latest
    → open_version os latest folder ≡ ok content
    → (folder' : Folder) × (now : ReadOnlyFile) × (modify os file operator
          (λ round f. f)
          (suc n)
          folder
        ≡ (some (ok tt), folder'))
      × (load os file folder' ≡ ok now)
      × (read_content os now folder' ≡ ok (operator (buffer content)))
read_content-modify os file operator n folder latest content stem placed readable syncs links free
      under dotted small loads opens =
    let new : String = operator (buffer content) in
    let (folder', swaps) =
      compare_and_swap_runs os file latest new folder placed readable syncs links free under in
    let (version, rest, found, le, is, pruned, below) =
      swapped os file latest new folder folder' placed
        (parse-name file stem (latest.version + 1) dotted (omega arith)) small swaps in
    (
      folder',
      record { version = latest.version + 1; path = path file (latest.version + 1) },
      modify_round os file operator n folder folder' latest content loads opens swaps,
      load-compare_and_swap os file latest new stem folder folder' placed dotted small swaps,
      rw is (read_linked os file latest new rest),
    )
