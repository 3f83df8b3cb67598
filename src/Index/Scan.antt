-- ===== src/Index/Scan.antt =====
-- fs-index/src/index.rs: `discover_paths`, `is_hidden`, `scan_entry`, `scan_entries` and `build`.
-- The file system, `walkdir` and the hash of a resource are a parameter, `Disk`: what they answer
-- during one call of a method of the index.
use text.Mathlib.Text.{starts_with}
use ark_rust.Base.{
  Eq, string_eq, ℕ, String, Bool, false, not, Option, none, some, List, [], ◌∷◌, ◌==◌,
  if◌then◌else◌,
}
use ark_rust.Error.{ArklibError, IoError, invalid_data, Result, ok, err, ◌>>=◌, from_io, to_option}
use ark_rust.Map
use ark_rust.Map.{Map}
use ark_rust.Index.State.{FilePath, SystemTime, IndexEntry, ResourceIndex, insert_entry}

pub record Metadata : Type 0 where
  pub is_dir : Bool
  pub len : ℕ
  pub modified : Result IoError SystemTime

-- `walkdir::DirEntry`.
pub record DirEntry : Type 0 where
  pub path : FilePath
  -- `file_name().to_str()`: `none` where the name is no valid Unicode
  pub file_name : Option String
  pub is_dir : Bool
  pub metadata : Result IoError Metadata

pub record Disk (ResourceId : Type 0) : Type 0 where
  -- `path.exists()`
  pub is_there : FilePath → Bool
  pub canonicalize : FilePath → Result IoError FilePath
  -- `fs::metadata`
  pub metadata : FilePath → Result IoError Metadata
  -- `ResourceId::from_path`
  pub from_path : FilePath → Result ArklibError ResourceId
  -- `WalkDir::new(root).into_iter().filter_entry(test)`; `none` is an error of the walk
  pub walk : FilePath → (DirEntry → Bool) → List (Option DirEntry)

unfoldable pub is_hidden : DirEntry → Bool
is_hidden entry = elim entry.file_name [ none ↦ false | some name ↦ starts_with name "." ]

module _ {ResourceId : Type 0} (disk : Disk ResourceId) where
  -- The closure of `filter_map` in `discover_paths`.
  unfoldable pub discover_entry : Option DirEntry → Option (FilePath × DirEntry)
  discover_entry none = none
  discover_entry (some entry) =
      if entry.is_dir then none else elim (to_option (disk.canonicalize entry.path)) [
        | none ↦ none
        | some canonical_path ↦ some (canonical_path, entry)
      ]

  unfoldable pub discover_each : List (Option DirEntry) → List (FilePath × DirEntry)
  unfolding discover_entry
  discover_each [] = []
  discover_each (result ∷ results) =
      let rest = discover_each results in
      elim (discover_entry result) [ none ↦ rest | some found ↦ found ∷ rest ]

  unfoldable pub discover_paths : FilePath → Map FilePath DirEntry
  unfolding discover_each is_hidden
  discover_paths root =
      Map.extend [] (discover_each (disk.walk root (λ entry. not (is_hidden entry))))

  unfoldable pub scan_entry : FilePath → Metadata → Result ArklibError (IndexEntry ResourceId)
  scan_entry path metadata =
      if metadata.is_dir
      then err (ArklibError.path "Path is expected to be a file")
      else if metadata.len == 0
      then err (ArklibError.io (record { kind = invalid_data; message = "Empty resource" }))
      else do
        id ← disk.from_path path
        modified ← from_io metadata.modified
        ok (record { modified = modified; id = id })

  -- The closure of `filter_map` in `scan_entries`.
  unfoldable pub scan_found : FilePath → DirEntry → Option (IndexEntry ResourceId)
  unfolding scan_entry
  scan_found path entry = elim (to_option entry.metadata) [
    | none ↦ none
    | some metadata ↦ to_option (scan_entry path metadata)
  ]

  unfoldable pub scan_each : Map FilePath DirEntry → List (FilePath × IndexEntry ResourceId)
  unfolding scan_found
  scan_each [] = []
  scan_each ((path, entry) ∷ m) =
      let rest = scan_each m in
      elim (scan_found path entry) [ none ↦ rest | some scanned ↦ (path, scanned) ∷ rest ]

  unfoldable pub scan_entries : Map FilePath DirEntry → Map FilePath (IndexEntry ResourceId)
  unfolding scan_each
  scan_entries entries = Map.extend [] (scan_each entries)

module _ {ResourceId : Type 0} ⦃e : Eq ResourceId⦄ where
  -- `for (path, entry) in entries { index.insert_entry(path, entry) }`
  unfoldable pub insert_each :
      List (FilePath × IndexEntry ResourceId) → ResourceIndex ResourceId → ResourceIndex ResourceId
  insert_each [] x = x
  insert_each ((path, entry) ∷ l) x = insert_each l (insert_entry path entry x)

  abbrev pub empty_index : FilePath → ResourceIndex ResourceId
  empty_index root = record { id2path = []; path2id = []; collisions = []; root = root }

  unfoldable pub build : Disk ResourceId → FilePath → ResourceIndex ResourceId
  unfolding insert_each scan_entries discover_paths
  build disk root = insert_each (scan_entries disk (discover_paths disk root)) (empty_index root)
