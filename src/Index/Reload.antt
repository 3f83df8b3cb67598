-- ===== src/Index/Reload.antt =====
-- `load` of fs-index/src/index.rs: the index against the lines of the file.
use ark_rust.Base.{
  Eq, string_eq, String, Option, none, some, List, [], ◌∷◌, ◌≡◌, refl, ◌∙◌, arith, inl, inr,
}
use ark_rust.Base.Text.{split}
use ark_rust.Error.{ArklibError, IoError, Result, Outcome, ok, err, returned, panic, Outcome-cases}
use ark_rust.Map.{get, over}
use ark_rust.Map.Keys.{IsUnique}
use ark_rust.Index.State.{FilePath, IndexEntry, ResourceIndex}
use ark_rust.Index.Scan.{Disk, empty_index, insert_each}
use ark_rust.Index.Tracking.{IsConsistent}
use ark_rust.Index.Build.{
  insert_each-IsConsistent, path2id-insert_each, empty_index-IsConsistent, all-AreApart,
}
use ark_rust.Index.Load.{IndexFile, load, load_lines, load_parts, load_found}

module _ {ResourceId : Type 0} ⦃e : Eq ResourceId⦄ (disk : Disk ResourceId)
    (file : IndexFile ResourceId) where
  -- An entry whose path is there, before the others.
  abbrev pub before :
      IndexEntry ResourceId
      → Result IoError FilePath
      → List (FilePath × IndexEntry ResourceId)
      → List (FilePath × IndexEntry ResourceId)
  before entry (err _) others = others
  before entry (ok path) others = (path, entry) ∷ others

  -- The entry of a line that parses, where its path is there, before the others.
  abbrev pub with_entry :
      FilePath
      → Outcome ArklibError (IndexEntry ResourceId × String)
      → List (FilePath × IndexEntry ResourceId)
      → List (FilePath × IndexEntry ResourceId)
  with_entry root panic others = others
  with_entry root (returned (err _)) others = others
  with_entry root (returned (ok (entry, text))) others =
      before entry (disk.canonicalize (file.join root text)) others

  -- The entries of the lines whose paths are there.
  unfoldable pub recorded :
      FilePath → List (Result IoError String) → List (FilePath × IndexEntry ResourceId)
  recorded root [] = []
  recorded root (err _ ∷ rest) = recorded root rest
  recorded root (ok line ∷ rest) =
      with_entry root (load_parts disk file (split 32 line)) (recorded root rest)

  insert_found :
      (entry : IndexEntry ResourceId) (r : Result IoError FilePath)
      (l : List (FilePath × IndexEntry ResourceId)) (x : ResourceIndex ResourceId)
      → insert_each l (load_found disk file entry r x) ≡ insert_each (before entry r l) x
  unfolding load_found insert_each
  insert_found entry (ok path) l x = refl
  insert_found entry (err cause) l x = refl

  load_lines-insert_each :
      (root : FilePath) (lines : List (Result IoError String)) (x y : ResourceIndex ResourceId)
      → load_lines disk file root lines x ≡ returned (ok y)
      → y ≡ insert_each (recorded root lines) x
  unfolding load_lines recorded insert_each
  load_lines-insert_each root [] x y h = ground arith
  load_lines-insert_each root (err cause ∷ rest) x y h = absurd (ground arith)
  load_lines-insert_each root (ok line ∷ rest) x y h =
      elim (Outcome-cases (load_parts disk file (split 32 line))) [
        | inl fails ↦ absurd (ground arith)
        | inr (inl (cause, fails)) ↦ absurd (ground arith)
        | inr (inr ((entry, text), parsed)) ↦
            rw (parsed, recorded)
              (load_lines-insert_each root rest
                  (load_found disk file entry (disk.canonicalize (file.join root text)) x) y
                  (ground arith)
                ∙ insert_found entry (disk.canonicalize (file.join root text)) (recorded root rest)
                    x)
      ]

  over-none : (o : Option (IndexEntry ResourceId)) → over o none ≡ o
  over-none none = refl
  over-none (some entry) = refl

  -- A load that succeeds makes a consistent index with exactly the entries of the lines whose
  -- paths are there, where no such path stands in two lines.
  pub load-IsConsistent :
      (root : FilePath) (lines : List (Result IoError String)) (x : ResourceIndex ResourceId)
      → file.lines ≡ ok lines
      → load disk file root ≡ returned (ok x)
      → IsUnique (recorded root lines)
      → IsConsistent x × ((p : FilePath) → get p x.path2id ≡ get p (recorded root lines))
  unfolding load get
  load-IsConsistent root lines x reads h u =
      let made : x ≡ insert_each (recorded root lines) (empty_index root) =
        load_lines-insert_each root lines (empty_index root) x (ground arith) in
      (
        rw made (
            insert_each-IsConsistent (recorded root lines) (empty_index root) u (all-AreApart _)
              (empty_index-IsConsistent root)),
        λ p. rw made (
            path2id-insert_each p (recorded root lines) (empty_index root) u
            ∙ over-none (get p (recorded root lines))),
      )
