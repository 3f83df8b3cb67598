-- ===== src/Index/Renew.antt =====
-- `index_new` of fs-index/src/index.rs on a consistent index.
use ark_rust.Base.{
  Eq, ◌≟◌, string_eq, ℕ, ◌+◌, ◌≡◌, ◌≢◌, ◌↔◌, ite, true, none, some, arith, ltb, if◌then◌else◌,
}
use ark_rust.Error.{ok}
use ark_rust.Map.{get, get-insert}
use ark_rust.Map.Keys.{insert-IsUnique}
use ark_rust.Index.State.{FilePath, IndexEntry, ResourceIndex}
use ark_rust.Index.Scan.{Disk, Metadata, scan_entry}
use ark_rust.Index.Single.{index_new, index_entry, bump}
use ark_rust.Index.Tracking.{IsConsistent, count_id, count-insert}
use ark_rust.Index.Insert.{Holds-insert}

module _ {ResourceId : Type 0} ⦃e : Eq ResourceId⦄ where
  module _ (path : FilePath) (entry : IndexEntry ResourceId) (x : ResourceIndex ResourceId)
      (fresh : get path x.path2id ≡ none) (c : IsConsistent x) where
    bump-counted :
        (i : ResourceId) (n : ℕ)
        → get entry.id x.collisions ≡ (if ltb 1 n then some n else none)
        → get i (bump entry.id x.collisions)
          ≡ ite (entry.id ≟ i) (if ltb 1 n then some (n + 1) else none) (get i x.collisions)
    unfolding bump
    bump-counted i n h = ground (arith, get-insert entry.id i (n + 1) x.collisions)

    index_entry-IsConsistent :
        count_id entry.id x.path2id ≢ 1 → IsConsistent (index_entry path entry x).1
    unfolding index_entry
    index_entry-IsConsistent many = record {
      unique = insert-IsUnique path entry x.path2id c.unique;
      counted = λ i. ground (
        arith,
        count-insert i path entry x.path2id fresh,
        bump-counted i (count_id entry.id x.path2id) (c.counted entry.id),
        c.counted i,
      );
      absent = λ i h. ground (
        arith,
        count-insert i path entry x.path2id fresh,
        c.absent i,
        get-insert entry.id i path x.id2path,
      );
      located = λ i p h. elim (entry.id ≟ i) [
        | yes same ↦ (
          entry,
          ground (arith, get-insert entry.id i path x.id2path, get-insert path p entry x.path2id),
          same,
        )
        | no different ↦
            Holds-insert i p path entry x.path2id fresh
              (c.located i p (ground (arith, get-insert entry.id i path x.id2path)))
      ];
    }

    not-IsConsistent-index_entry :
        count_id entry.id x.path2id ≡ 1 → ¬ IsConsistent (index_entry path entry x).1
    unfolding index_entry
    not-IsConsistent-index_entry single d = ground (
      arith,
      count-insert entry.id path entry x.path2id fresh,
      bump-counted entry.id 1,
      c.counted entry.id,
      d.counted entry.id,
    )

  -- index_new of a path that is not indexed keeps a consistent index consistent exactly if its id
  -- does not have exactly one path already.
  pub index_new-IsConsistent :
      (disk : Disk ResourceId) (path canonical : FilePath) (metadata : Metadata)
      (entry : IndexEntry ResourceId) (x : ResourceIndex ResourceId)
      → disk.is_there path ≡ true
      → disk.canonicalize path ≡ ok canonical
      → disk.metadata canonical ≡ ok metadata
      → scan_entry disk canonical metadata ≡ ok entry
      → get canonical x.path2id ≡ none
      → IsConsistent x
      → IsConsistent (index_new disk path x).1 ↔ (count_id entry.id x.path2id ≢ 1)
  unfolding index_new
  index_new-IsConsistent disk path canonical metadata entry x there same found scan fresh c =
      rw (runs) (
        λ d single. not-IsConsistent-index_entry canonical entry x fresh c single d,
        index_entry-IsConsistent canonical entry x fresh c,
      )
    where
      runs : index_new disk path x ≡ index_entry canonical entry x
      runs = ground arith
