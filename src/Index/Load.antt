-- ===== src/Index/Load.antt =====
-- fs-index/src/index.rs: `load`, which reads the index from its file.
use Prim.Native.String.{◌++◌ as push_str}
use ark_rust.Base.{
  Eq, string_eq, ◌+◌, ◌*◌, String, Option, none, some, List, [], ◌∷◌, ltb, if◌then◌else◌,
}
use ark_rust.Base.Text.{split, parse_u64}
use ark_rust.Error.{ArklibError, IoError, Result, Outcome, ok, err, returned, panic}
use ark_rust.Index.State.{FilePath, SystemTime, IndexEntry, ResourceIndex, insert_entry}
use ark_rust.Index.Scan.{Disk, empty_index}

-- What lies outside: the lines of the index file, the clock's `UNIX_EPOCH` and last time, `FromStr`
-- of an id and the joining of paths.
pub record IndexFile (ResourceId : Type 0) : Type 0 where
  pub lines : Result IoError (List (Result IoError String))
  pub unix_epoch : SystemTime
  pub last_time : SystemTime
  pub from_str : String → Option ResourceId
  pub join : FilePath → String → FilePath

module _ {ResourceId : Type 0} ⦃e : Eq ResourceId⦄ (disk : Disk ResourceId)
    (file : IndexFile ResourceId) where
  -- `intersperse(parts, " ").collect()`
  unfoldable pub spaced : List String → String
  spaced [] = ""
  spaced (part ∷ []) = part
  spaced (part ∷ next ∷ parts) = push_str part (push_str " " (spaced (next ∷ parts)))

  -- The second part of a line and the rest of it.
  unfoldable pub load_id :
      SystemTime → List String → Outcome ArklibError (IndexEntry ResourceId × String)
  unfolding spaced
  load_id modified [] = returned (err ArklibError.parse)
  load_id modified (part ∷ parts) = elim (file.from_str part) [
    | none ↦ returned (err ArklibError.parse)
    | some id ↦ returned (ok (record { modified = modified; id = id }, spaced parts))
  ]

  -- A line of the file; the addition to `UNIX_EPOCH` panics where it overflows.
  unfoldable pub load_parts : List String → Outcome ArklibError (IndexEntry ResourceId × String)
  unfolding load_id
  load_parts [] = returned (err ArklibError.parse)
  load_parts (part ∷ parts) = elim (parse_u64 part) [
    | none ↦ returned (err ArklibError.parse)
    | some millis ↦
        let modified = file.unix_epoch + millis * 1_000_000 in
        if ltb file.last_time modified then panic else load_id modified parts
  ]

  -- The entry of a line, put into the index where its path is there.
  unfoldable pub load_found :
      IndexEntry ResourceId
      → Result IoError FilePath
      → ResourceIndex ResourceId
      → ResourceIndex ResourceId
  load_found entry (ok path) index = insert_entry path entry index
  load_found entry (err _) index = index

  unfoldable pub load_lines :
      FilePath
      → List (Result IoError String)
      → ResourceIndex ResourceId
      → Outcome ArklibError (ResourceIndex ResourceId)
  unfolding load_parts load_found
  load_lines root [] index = returned (ok index)
  load_lines root (err cause ∷ rest) index = returned (err (ArklibError.io cause))
  load_lines root (ok line ∷ rest) index = elim (load_parts (split 32 line)) [
    | panic ↦ panic
    | returned (err cause) ↦ returned (err cause)
    | returned (ok (entry, text)) ↦
        load_lines root rest (load_found entry (disk.canonicalize (file.join root text)) index)
  ]

  unfoldable pub load : FilePath → Outcome ArklibError (ResourceIndex ResourceId)
  unfolding load_lines
  load root = elim file.lines [
    | err cause ↦ returned (err (ArklibError.io cause))
    | ok lines ↦ load_lines root lines (empty_index root)
  ]
