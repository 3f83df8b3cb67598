-- ===== src/Index/Store.antt =====
-- fs-index/src/index.rs: `store`, which writes the index to its file, and `provide`.
use Prim.Native.String.{◌++◌ as push_str}
use ark_rust.Base.{
  Eq, ◌-◌, ◌/◌, ◌==◌, String, Bool, true, false, Option, none, some, [], ◌∷◌, ltb, if◌then◌else◌,
}
use ark_rust.Base.Decimal.{display}
use ark_rust.Error.{ArklibError, IoError, Result, Outcome, ok, err, returned, panic}
use ark_rust.Map.{Map}
use ark_rust.Index.State.{FilePath, SystemTime, IndexEntry, ResourceIndex}
use ark_rust.Index.Scan.{Disk, build}
use ark_rust.Index.Update.{update_all}
use ark_rust.Index.Load.{IndexFile, load}

-- What lies outside of `store`: the order and the print of an id, `pathdiff`, and the faults of the
-- disk, for a line by its text.
pub record Printer (ResourceId : Type 0) : Type 0 where
  pub le_id : ResourceId → ResourceId → Bool
  pub to_string : ResourceId → String
  pub diff_paths : FilePath → FilePath → Option String
  pub create_dir_all : Option IoError
  pub create : Option IoError
  pub writeln : String → Option IoError

module _ {ResourceId : Type 0} (printer : Printer ResourceId) where
  -- The derived order of `IndexEntry`.
  unfoldable pub le_entry : IndexEntry ResourceId → IndexEntry ResourceId → Bool
  le_entry a b =
      if ltb a.modified b.modified
      then true
      else if a.modified == b.modified
      then printer.le_id a.id b.id
      else false

  -- `sort_by_key(|(_, entry)| *entry)`, which keeps the order of equal entries.
  unfoldable pub place :
      FilePath
      → IndexEntry ResourceId
      → Map FilePath (IndexEntry ResourceId)
      → Map FilePath (IndexEntry ResourceId)
  place path entry [] = (path, entry) ∷ []
  place path entry ((p, other) ∷ rest) =
      let later = (p, other) ∷ place path entry rest in
      if le_entry entry other then (path, entry) ∷ (p, other) ∷ rest else later

  unfoldable pub sort_by_key :
      Map FilePath (IndexEntry ResourceId) → Map FilePath (IndexEntry ResourceId)
  unfolding place
  sort_by_key [] = []
  sort_by_key ((path, entry) ∷ rest) = place path entry (sort_by_key rest)

  -- `duration_since(UNIX_EPOCH)`, in milliseconds.
  unfoldable pub timestamp : SystemTime → SystemTime → Option SystemTime
  timestamp unix_epoch modified =
      if ltb modified unix_epoch then none else some ((modified - unix_epoch) / 1_000_000)

  abbrev pub store_line : SystemTime → IndexEntry ResourceId → String → String
  store_line time entry path =
      push_str (display time)
        (push_str " " (push_str (printer.to_string entry.id) (push_str " " path)))

  -- The loop over the sorted entries; the text of the file stays also beside an error.
  unfoldable pub store_each :
      SystemTime
      → FilePath
      → Map FilePath (IndexEntry ResourceId)
      → Result ArklibError Unit × String
  unfolding timestamp
  store_each unix_epoch root [] = (ok tt, "")
  store_each unix_epoch root ((path, entry) ∷ rest) =
      let (result, text) = store_each unix_epoch root rest in
      elim (timestamp unix_epoch entry.modified) [
        | none ↦ (err (ArklibError.other "Error using duration since"), "")
        | some time ↦ elim (printer.diff_paths path root) [
          | none ↦ (err (ArklibError.path "Couldn't calculate path diff"), "")
          | some relative ↦ elim (printer.writeln (store_line time entry relative)) [
            | some cause ↦ (err (ArklibError.io cause), "")
            | none ↦ (result, push_str (store_line time entry relative) (push_str "\n" text))
          ]
        ]
      ]

  -- The result, with the text of the index file; `none` is a file that was not touched.
  unfoldable pub store :
      SystemTime → ResourceIndex ResourceId → Result ArklibError Unit × Option String
  unfolding sort_by_key store_each
  store unix_epoch x = elim printer.create_dir_all [
    | some cause ↦ (err (ArklibError.io cause), none)
    | none ↦ elim printer.create [
      | some cause ↦ (err (ArklibError.io cause), none)
      | none ↦
          let (result, text) = store_each unix_epoch x.root (sort_by_key x.path2id) in
          (result, some text)
    ]
  ]

module _ {ResourceId : Type 0} ⦃e : Eq ResourceId⦄ (disk : Disk ResourceId)
    (file : IndexFile ResourceId) (printer : Printer ResourceId) where
  -- The index, with the text of its file where it was written; the errors of `update_all` and of
  -- `store` are only logged.
  unfoldable pub provide : FilePath → Outcome ArklibError (ResourceIndex ResourceId × Option String)
  unfolding load update_all store
  provide root = elim (load disk file root) [
    | panic ↦ panic
    | returned (err _) ↦ returned (ok (build disk root, none))
    | returned (ok index) ↦
        let (update, updated) = update_all disk index in
        elim update [
          | panic ↦ panic
          | returned _ ↦ returned (ok (updated, (store printer file.unix_epoch updated).1))
        ]
  ]
