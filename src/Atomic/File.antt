-- ===== src/Atomic/File.antt =====
-- fs-atomic-versions/src/atomic/file.rs: `AtomicFile` and what it does to its folder. Temporary
-- files, whose names have no dot, are left out of the folder.
use Prim.Native.String.{◌++◌ as push_str}
use text.Mathlib.Text.{find?}
use ark_rust.Base.{
  ◌≟◌, string_eq, ℕ, ◌+◌, ◌-◌, ◌%◌, ◌^◌, String, Bool, true, false, ◌&&◌, ite, Option, none, some,
  List, [], ◌∷◌, ◌++◌, ltb, leb, ◌==◌, if◌then◌else◌,
}
use ark_rust.Base.Decimal.{display}
use ark_rust.Base.Text.{split, parse_u64}
use ark_rust.Error.{IoError, not_found, already_exists, Result, ok, err}

abbrev pub max_version_files : ℕ
max_version_files = 10

pub record ReadOnlyFile : Type 0 where
  pub version : ℕ
  pub path : String

pub record AtomicFile : Type 0 where
  pub directory : String
  pub prefix : String

-- An entry of the folder: `file_name` is `none` where it is no UTF-8.
pub record Entry : Type 0 where
  pub file_name : Option String
  pub path : String
  pub content : String

abbrev pub Folder : Type 0
Folder = List Entry

-- What follows the last dot: `rsplit_once('.')`, where the text has a dot.
unfoldable pub after_last : List String → Option String
after_last [] = none
after_last (w ∷ []) = none
after_last (w ∷ v ∷ []) = some v
after_last (w ∷ v ∷ u ∷ ws) = after_last (v ∷ u ∷ ws)

unfoldable pub parse_version : Option String → Option ℕ
unfolding parse_u64 after_last split
parse_version none = none
parse_version (some filename) = elim (after_last (split 46 filename)) [
  | none ↦ none
  | some version ↦ parse_u64 version
]

-- One step of the fold of `latest_version`.
unfoldable pub add_entry : Entry → List ReadOnlyFile × ℕ → List ReadOnlyFile × ℕ
add_entry entry (files, current_max_version) = elim (parse_version entry.file_name) [
  | none ↦ (files, current_max_version)
  | some version ↦
      if leb current_max_version version
      then (files ++ (record { version = version; path = entry.path }) ∷ [], version)
      else (files, current_max_version)
]

unfoldable pub fold_entries : Folder → List ReadOnlyFile × ℕ → List ReadOnlyFile × ℕ
fold_entries [] acc = acc
fold_entries (entry ∷ rest) acc = fold_entries rest (add_entry entry acc)

-- The `filter_map` of `latest_version`, on the versions that the paths have.
unfoldable pub keep_version : ℕ → List ReadOnlyFile → List ReadOnlyFile
keep_version version [] = []
keep_version version (file ∷ files) =
    let rest = keep_version version files in
    elim (parse_version (some file.path)) [
      | none ↦ rest
      | some file_version ↦ if file_version == version then file ∷ rest else rest
    ]

-- What lies outside: whether the folder can be read, the syncs and links succeed, and an entry can
-- be removed.
pub record Os : Type 0 where
  pub read_dir : Option IoError
  pub sync_data : Option IoError
  pub hard_link : Option IoError
  pub eexist : IoError
  pub enoent : IoError
  pub removable : Entry → Bool

unfoldable pub latest_version : Os → Folder → Result IoError (ℕ × List ReadOnlyFile)
latest_version os folder = elim os.read_dir [
  | some cause ↦ err cause
  | none ↦
      let (files, version) = fold_entries folder ([], 0) in ok (version, keep_version version files)
]

abbrev pub name : AtomicFile → ℕ → String
name file version = push_str file.prefix (display version)

abbrev pub path : AtomicFile → ℕ → String
path file version = push_str (push_str file.directory "/") (name file version)

unfoldable pub find_prefix : Os → AtomicFile → List ReadOnlyFile → Option ReadOnlyFile
find_prefix os file [] = none
find_prefix os file (f ∷ files) =
    let rest = find_prefix os file files in
    elim (find? f.path file.prefix) [ none ↦ rest | some _ ↦ some f ]

unfoldable pub load : Os → AtomicFile → Folder → Result IoError ReadOnlyFile
unfolding latest_version find_prefix
load os file folder = elim (latest_version os folder) [
  | err cause ↦ err cause
  | ok (version, []) ↦ ok (record { version = version; path = path file version })
  | ok (version, f ∷ []) ↦ ok f
  | ok (version, f ∷ g ∷ files) ↦ elim (find_prefix os file (f ∷ g ∷ files)) [
    | none ↦ err (record { kind = not_found; message = "File not found with correct version" })
    | some found ↦ ok found
  ]
]

-- Whether `prune_old_versions` deletes an entry; the sum wraps around.
abbrev pub is_old : Os → ℕ → Entry → Bool
is_old os version entry = elim (parse_version entry.file_name) [
  | none ↦ false
  | some file_version ↦
      leb ((file_version + max_version_files - 1) % 2 ^ 64) version && os.removable entry
]

-- The folder that is left, with the number of the files deleted.
unfoldable pub prune_old_versions : Os → ℕ → Folder → ℕ × Folder
prune_old_versions os version [] = (0, [])
prune_old_versions os version (entry ∷ rest) =
    let (deleted, left) = prune_old_versions os version rest in
    if is_old os version entry then (deleted + 1, left) else (deleted, entry ∷ left)

unfoldable pub has_name : String → Folder → Bool
has_name n [] = false
has_name n (entry ∷ rest) =
    let there = has_name n rest in
    elim entry.file_name [ none ↦ there | some m ↦ ite (m ≟ n) true there ]

-- `hard_link` of the temporary file with this content.
abbrev pub link : Os → AtomicFile → ℕ → String → Folder → Result IoError Folder
link os file version content folder =
    if has_name (name file version) folder then err os.eexist else elim os.hard_link [
      | some cause ↦ err cause
      | none ↦ ok (
          record {
            file_name = some (name file version);
            path = path file version;
            content = content;
          }
          ∷ folder)
    ]

unfoldable pub compare_and_swap :
    Os → AtomicFile → ReadOnlyFile → String → Folder → Result IoError Unit × Folder
unfolding latest_version prune_old_versions has_name
compare_and_swap os file current content folder = elim os.sync_data [
  | some cause ↦ (err cause, folder)
  | none ↦ elim (latest_version os folder) [
    | err cause ↦ (err cause, folder)
    | ok (version, _) ↦
        if ltb current.version version
        then (
          err (record {
            kind = already_exists;
            message = "the `current` file is not the latest version";
          }),
          folder,
        )
        else elim (link os file (current.version + 1) content folder) [
          | err cause ↦ (err cause, folder)
          | ok linked ↦ (ok tt, (prune_old_versions os version linked).1)
        ]
  ]
]
