-- ===== src/Index/RoundTrip.antt =====
-- `load` of fs-index/src/index.rs after `store`.
use Prim.Native.String.{◌++◌ as push_str}
use ark_rust.Base.{
  ◌≤◌, false, Eq, string_eq, ◌≤◌, ◌-◌, ◌/◌, String, false, Option, none, some, List, [], ◌∷◌, ◌≡◌,
  refl, ap, ◌∙◌, All, map, arith,
}
use ark_rust.Base.Text.{lines}
use ark_rust.Base.Pieces.{lines-append, newline_append}
use ark_rust.Error.{ArklibError, IoError, Result, Outcome, ok, returned}
use ark_rust.Map.{Map, get}
use ark_rust.Map.Keys.{IsUnique}
use ark_rust.Index.State.{FilePath, IndexEntry, ResourceIndex}
use ark_rust.Index.Scan.{Disk, DirEntry, empty_index}
use ark_rust.Index.Tracking.{IsConsistent}
use ark_rust.Index.Load.{IndexFile, load, load_lines, load_found}
use ark_rust.Index.Reload.{recorded, load-IsConsistent}
use ark_rust.Index.Store.{Printer, store_line, store_each, sort_by_key, store}
use ark_rust.Index.StoreLoad.{IsReadable, rounded, load_parts-line, line-Lacks}
use ark_rust.Index.Sorted.{get-sort_by_key, sort_by_key-IsUnique, sort_by_key-All}
use ark_rust.Index.Update.{was_updated, curr_modified, duration_since}

abbrev pub oks : List String → List (Result IoError String)
oks = map (λ line. ok line)

module _ {ResourceId : Type 0} ⦃e : Eq ResourceId⦄ (disk : Disk ResourceId)
    (file : IndexFile ResourceId) (printer : Printer ResourceId) (root : FilePath) where
  abbrev pub AreReadable : Map FilePath (IndexEntry ResourceId) → Type 0
  AreReadable m = All (λ r. IsReadable disk file printer root r.0 r.1) m

  abbrev pub all_rounded :
      Map FilePath (IndexEntry ResourceId) → Map FilePath (IndexEntry ResourceId)
  all_rounded [] = []
  all_rounded ((path, entry) ∷ m) = (path, rounded disk file printer root entry) ∷ all_rounded m

  abbrev line_of :
      (path : FilePath) (entry : IndexEntry ResourceId)
      → IsReadable disk file printer root path entry
      → String
  line_of path entry r =
      store_line printer ((entry.modified - file.unix_epoch) / 1_000_000) entry r.relative

  lines-line :
      (path : FilePath) (entry : IndexEntry ResourceId)
      (r : IsReadable disk file printer root path entry) (text : String)
      → lines (push_str (line_of path entry r) (push_str "\n" text))
        ≡ line_of path entry r ∷ lines text
  lines-line path entry r text =
      ap (λ s. lines (push_str (line_of path entry r) s)) (newline_append text)
      ∙ lines-append (line_of path entry r) text
          (line-Lacks disk file printer root 10 _ entry r.relative (omega arith) r.id_line.0
            r.one_line.0)
          (line-Lacks disk file printer root 13 _ entry r.relative (omega arith) r.id_line.1
            r.one_line.1)

  store_each-line :
      (path : FilePath) (entry : IndexEntry ResourceId)
      (r : IsReadable disk file printer root path entry) (m : Map FilePath (IndexEntry ResourceId))
      (text : String)
      → store_each printer file.unix_epoch root m ≡ (ok tt, text)
      → store_each printer file.unix_epoch root ((path, entry) ∷ m)
        ≡ (ok tt, push_str (line_of path entry r) (push_str "\n" text))
  unfolding store_each
  store_each-line path entry r m text h =
      ground (arith, r.after_epoch, r.is_below, r.written (line_of path entry r))

  recorded-line :
      (path : FilePath) (entry : IndexEntry ResourceId)
      (r : IsReadable disk file printer root path entry) (rest : List (Result IoError String))
      → recorded disk file root (ok (line_of path entry r) ∷ rest)
        ≡ (path, rounded disk file printer root entry) ∷ recorded disk file root rest
  unfolding recorded
  recorded-line path entry r rest =
      rw (load_parts-line disk file printer root path entry r, recorded) (rw r.found refl)

  load_lines-line :
      (path : FilePath) (entry : IndexEntry ResourceId)
      (r : IsReadable disk file printer root path entry) (rest : List (Result IoError String))
      (x : ResourceIndex ResourceId)
      → load_lines disk file root (ok (line_of path entry r) ∷ rest) x
        ≡ load_lines disk file root rest (
            load_found disk file
              (rounded disk file printer root entry)
              (disk.canonicalize (file.join root r.relative))
              x)
  unfolding load_lines
  load_lines-line path entry r rest x =
      rw (load_parts-line disk file printer root path entry r, load_lines) refl

  -- The text that the loop of `store` writes, and what `load` makes of its lines.
  abbrev Loads : Map FilePath (IndexEntry ResourceId) → Type 0
  Loads m =
      (text : String) × (store_each printer file.unix_epoch root m ≡ (ok tt, text))
      × (recorded disk file root (oks (lines text)) ≡ all_rounded m)
      × ((x : ResourceIndex ResourceId)
          → (y : ResourceIndex ResourceId) × (load_lines disk file root (oks (lines text)) x
              ≡ returned (ok y)))

  store_each-Loads : (m : Map FilePath (IndexEntry ResourceId)) → AreReadable m → Loads m
  unfolding store_each recorded load_lines lines
  store_each-Loads [] h = ("", refl, refl, λ x. (x, refl))
  store_each-Loads ((path, entry) ∷ m) (r, rest) =
      let (text, stores, records, loads) = store_each-Loads m rest in
      let cut : lines (push_str (line_of path entry r) (push_str "\n" text))
          ≡ line_of path entry r ∷ lines text =
        lines-line path entry r text in
      (
        push_str (line_of path entry r) (push_str "\n" text),
        store_each-line path entry r m text stores,
        ap (λ l. recorded disk file root (oks l)) cut
            ∙ recorded-line path entry r (oks (lines text))
            ∙ ap (λ l. (path, rounded disk file printer root entry) ∷ l) records,
        λ x.
            let (y, ends) = loads (
              load_found disk file (rounded disk file printer root entry)
                (disk.canonicalize (file.join root r.relative)) x) in
            (
              y,
              ap (λ l. load_lines disk file root (oks l) x) cut
                  ∙ load_lines-line path entry r (oks (lines text)) x
                  ∙ ends,
            ),
      )

  -- What a path maps into after a load.
  abbrev pub reread : Option (IndexEntry ResourceId) → Option (IndexEntry ResourceId)
  reread none = none
  reread (some entry) = some (rounded disk file printer root entry)

  get-all_rounded :
      (p : FilePath) (m : Map FilePath (IndexEntry ResourceId))
      → get p (all_rounded m) ≡ reread (get p m)
  unfolding get
  get-all_rounded p [] = refl
  get-all_rounded p ((q, entry) ∷ m) = ground (arith, get-all_rounded p m)

  all_rounded-IsUnique :
      (m : Map FilePath (IndexEntry ResourceId)) → IsUnique m → IsUnique (all_rounded m)
  all_rounded-IsUnique [] u = tt
  all_rounded-IsUnique ((q, entry) ∷ m) u =
      (get-all_rounded q m ∙ ap reread u.0, all_rounded-IsUnique m u.1)

  load_of :
      (rows : List (Result IoError String)) (r : Outcome ArklibError (ResourceIndex ResourceId))
      → file.lines ≡ ok rows
      → load_lines disk file root rows (empty_index root) ≡ r
      → load disk file root ≡ r
  unfolding load
  load_of rows r has h = rw (has, load) h

  stored :
      (x : ResourceIndex ResourceId) (result : Result ArklibError Unit) (text t : String)
      → x.root ≡ root
      → store_each printer file.unix_epoch root (sort_by_key printer x.path2id) ≡ (ok tt, t)
      → store printer file.unix_epoch x ≡ (result, some text)
      → (result ≡ ok tt) × (text ≡ t)
  unfolding store
  stored x result text t at_root each stores = ground arith

  -- Where the disk has no fault, the paths are unique and each entry can be printed and read,
  -- store succeeds, and a load of the file that it has written makes a consistent index with the
  -- same paths and ids, whose times are rounded down to whole milliseconds.
  pub load-store :
      (x : ResourceIndex ResourceId) (result : Result ArklibError Unit) (text : String)
      → x.root ≡ root
      → IsUnique x.path2id
      → AreReadable x.path2id
      → store printer file.unix_epoch x ≡ (result, some text)
      → file.lines ≡ ok (oks (lines text))
      → (result ≡ ok tt)
        × (y : ResourceIndex ResourceId) × (load disk file root ≡ returned (ok y))
        × IsConsistent y
        × ((p : FilePath) → get p y.path2id ≡ reread (get p x.path2id))
  load-store x result text at_root u readable stores has =
      let (t, each, records, loads) =
        store_each-Loads (sort_by_key printer x.path2id)
          (sort_by_key-All printer (IsReadable disk file printer root) x.path2id readable) in
      let (done, same) = stored x result text t at_root each stores in
      let has_t : file.lines ≡ ok (oks (lines t)) = has ∙ ap (λ s. ok (oks (lines s))) same in
      let (y, made) = loads (empty_index root) in
      let h : load disk file root ≡ returned (ok y) = load_of (oks (lines t)) _ has_t made in
      let (consistent, finds) =
        load-IsConsistent disk file root (oks (lines t)) y has_t h
          (rw records (all_rounded-IsUnique _ (sort_by_key-IsUnique printer x.path2id u))) in
      (
        done,
        y,
        h,
        consistent,
        λ p.
            finds p
            ∙ ap (get p) records
            ∙ get-all_rounded p (sort_by_key printer x.path2id)
            ∙ ap reread (get-sort_by_key printer p x.path2id u),
      )

  -- A file whose time is the one in the index that was stored is not taken as updated by an index
  -- that maps its path into the entry rounded to whole milliseconds, where the time is not before
  -- UNIX_EPOCH.
  reload-not-updated :
      (x y : ResourceIndex ResourceId) (path : FilePath) (entry : IndexEntry ResourceId)
      (dir_entry : DirEntry)
      → get path x.path2id ≡ some entry
      → get path y.path2id ≡ reread (get path x.path2id)
      → file.unix_epoch ≤ entry.modified
      → curr_modified dir_entry ≡ some entry.modified
      → was_updated y path dir_entry ≡ some false
  unfolding was_updated duration_since
  reload-not-updated x y path entry dir_entry old new after same = ground arith
