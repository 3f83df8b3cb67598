-- ===== src/Index/Restore.antt =====
-- `provide` of fs-index/src/index.rs where the index was stored and nothing on the disk has changed.
use ark_rust.Base.{
  Eq, string_eq, ◌≟◌, ◌≤◌, String, Option, some, List, [], ◌∷◌, ◌≡◌, ◌≢◌, ap, ◌∙◌, arith, inl, inr,
}
use ark_rust.Base.Text.{split, lines}
use ark_rust.Error.{
  ArklibError, IoError, Result, Result-cases, Outcome-cases, ok, err, returned, panic,
}
use ark_rust.Map.{Map, get}
use ark_rust.Index.State.{FilePath, IndexEntry, ResourceIndex, insert_entry}
use ark_rust.Index.Scan.{Disk, build, empty_index}
use ark_rust.Index.Build.{build-IsConsistent}
use ark_rust.Index.Update.{update_all}
use ark_rust.Index.Load.{IndexFile, load, load_lines, load_parts, load_found}
use ark_rust.Index.Store.{Printer, store, provide}
use ark_rust.Index.StoreLoad.{rounded}
use ark_rust.Index.RoundTrip.{oks, AreReadable, reread, load-store}
use ark_rust.Index.Rest.{IsSettled, update_all-settled, like_build-IsSettled, build-root}

module _ {ResourceId : Type 0} ⦃e : Eq ResourceId⦄ (disk : Disk ResourceId)
    (file : IndexFile ResourceId) (root : FilePath) where
  load_found-root :
      (entry : IndexEntry ResourceId) (path : Result IoError FilePath)
      (x : ResourceIndex ResourceId)
      → (load_found disk file entry path x).root ≡ x.root
  unfolding load_found insert_entry
  load_found-root entry path x = ground arith

  load_lines-root :
      (rows : List (Result IoError String)) (x y : ResourceIndex ResourceId)
      → load_lines disk file root rows x ≡ returned (ok y)
      → y.root ≡ x.root
  unfolding load_lines
  load_lines-root [] x y h = ground arith
  load_lines-root (err cause ∷ rows) x y h = absurd (ground arith)
  load_lines-root (ok line ∷ rows) x y h =
      elim (Outcome-cases (load_parts disk file (split 32 line))) [
        | inl panics ↦ absurd (ground arith)
        | inr (inl (cause, fails)) ↦ absurd (ground arith)
        | inr (inr ((entry, text), parts)) ↦
            load_lines-root rows
              (load_found disk file entry (disk.canonicalize (file.join root text)) x) y
              (ground arith)
            ∙ load_found-root entry (disk.canonicalize (file.join root text)) x
      ]

  load-root : (y : ResourceIndex ResourceId) → load disk file root ≡ returned (ok y) → y.root ≡ root
  unfolding load
  load-root y h = elim (Result-cases file.lines) [
    | inl (cause, fails) ↦ absurd (ground arith)
    | inr (rows, has) ↦ load_lines-root rows (empty_index root) y (ground arith)
  ]

  module _ (printer : Printer ResourceId) where
    readable_at :
        (p : FilePath) (en : IndexEntry ResourceId) (m : Map FilePath (IndexEntry ResourceId))
        → AreReadable disk file printer root m
        → get p m ≡ some en
        → file.unix_epoch ≤ en.modified
    unfolding get
    readable_at p en [] h found = absurd (ground arith)
    readable_at p en ((q, entry) ∷ m) h found = elim (q ≟ p) [
      | yes same ↦ ground (arith, h.0.after_epoch)
      | no other ↦ readable_at p en m h.1 (ground arith)
    ]

    provide_loaded :
        (y : ResourceIndex ResourceId)
        → load disk file root ≡ returned (ok y)
        → (update_all disk y).0 ≢ panic
        → provide disk file printer root
          ≡ returned
              (ok ((update_all disk y).1, (store printer file.unix_epoch (update_all disk y).1).1))
    unfolding provide
    provide_loaded y loads runs = elim (Outcome-cases (update_all disk y).0) [
      | inl panics ↦ absurd (runs panics)
      | inr (inl (cause, fails)) ↦ ground arith
      | inr (inr (diff, updates)) ↦ ground arith
    ]

    -- Where a fresh build of an index was stored, its entries can be printed and read, the index
    -- file has what was stored and nothing on the disk has changed, provide gives an index with
    -- the same paths and ids, whose times are rounded down to whole milliseconds: the update
    -- after the load does not panic and changes no entry.
    pub provide-store :
        (result : Result ArklibError Unit) (text : String)
        → AreReadable disk file printer root (build disk root).path2id
        → store printer file.unix_epoch (build disk root) ≡ (result, some text)
        → file.lines ≡ ok (oks (lines text))
        → (y : ResourceIndex ResourceId) × (t : Option String) × (provide disk file printer root
            ≡ returned (ok (y, t)))
          × ((p : FilePath)
              → get p y.path2id ≡ reread disk file printer root (get p (build disk root).path2id))
    provide-store result text readable stores has =
        let (done, y, loads, consistent, finds) =
          load-store disk file printer root (build disk root) result text (build-root disk root)
            (build-IsConsistent disk root).unique readable stores has in
        let settled : IsSettled disk y =
          like_build-IsSettled disk root y (load-root y loads)
            (λ p none_there. finds p ∙ ap (reread disk file printer root) none_there)
            (λ p en there.
              let after = readable_at p en (build disk root).path2id readable there in
              (
                rounded disk file printer root en,
                finds p ∙ ap (reread disk file printer root) there,
                omega (arith, after),
                omega (arith, after),
              )) in
        let (runs, stays) = update_all-settled disk y settled in
        (
          (update_all disk y).1,
          (store printer file.unix_epoch (update_all disk y).1).1,
          provide_loaded y loads runs,
          λ p. stays p ∙ finds p,
        )
