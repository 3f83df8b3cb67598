-- ===== src/Index/Insert.antt =====
-- `insert_entry` of fs-index/src/index.rs on a consistent index.
use ark_rust.Base.{
  Eq, ◌≟◌, string_eq, ℕ, ◌+◌, ◌<◌, ◌≡◌, ite, none, some, arith, inl, inr, ltb, if◌then◌else◌,
  Option-cases,
}
use ark_rust.Map.{Map, get, insert, get-insert}
use ark_rust.Map.Keys.{insert-IsUnique}
use ark_rust.Index.State.{FilePath, IndexEntry, ResourceIndex, insert_entry, collide}
use ark_rust.Index.Tracking.{count_id, Holds, IsConsistent, count-insert, count_pos}

module _ {ResourceId : Type 0} ⦃e : Eq ResourceId⦄ where
  pub Holds-insert :
      (i : ResourceId) (p q : FilePath) (en : IndexEntry ResourceId)
      (m : Map FilePath (IndexEntry ResourceId))
      → get q m ≡ none
      → Holds p i m
      → Holds p i (insert q en m)
  Holds-insert i p q en m h (w, g, k) = (w, ground (arith, get-insert q p en m), k)

  collide-counted :
      (i j : ResourceId) (n : ℕ) (cs : Map ResourceId ℕ)
      → 0 < n
      → get i cs ≡ (if ltb 1 n then some n else none)
      → get j (collide i cs) ≡ ite (i ≟ j) (some (n + 1)) (get j cs)
  unfolding collide
  collide-counted i j n cs pos h = ground (arith, get-insert i j (n + 1) cs, get-insert i j 2 cs)

  module _ (path : FilePath) (entry : IndexEntry ResourceId) (x : ResourceIndex ResourceId)
      (fresh : get path x.path2id ≡ none) (c : IsConsistent x) where
    vacant-IsConsistent : get entry.id x.id2path ≡ none → IsConsistent (insert_entry path entry x)
    unfolding insert_entry
    vacant-IsConsistent v =
        rw (v, insert_entry)
          (record {
            unique = insert-IsUnique path entry x.path2id c.unique;
            counted = λ i. ground (
              arith,
              count-insert i path entry x.path2id fresh,
              c.counted i,
              c.absent entry.id v,
            );
            absent = λ i h. ground (
              arith,
              count-insert i path entry x.path2id fresh,
              c.absent i,
              get-insert entry.id i path x.id2path,
            );
            located = λ i p h. elim (entry.id ≟ i) [
              | yes same ↦ (
                entry,
                ground (
                  arith,
                  get-insert entry.id i path x.id2path,
                  get-insert path p entry x.path2id,
                ),
                same,
              )
              | no different ↦
                  Holds-insert i p path entry x.path2id fresh
                    (c.located i p (ground (arith, get-insert entry.id i path x.id2path)))
            ];
          })

    occupied-IsConsistent :
        (q : FilePath) → get entry.id x.id2path ≡ some q → IsConsistent (insert_entry path entry x)
    unfolding insert_entry
    occupied-IsConsistent q o =
        rw (o, insert_entry)
          (record {
            unique = insert-IsUnique path entry x.path2id c.unique;
            counted = λ i. ground (
              arith,
              count-insert i path entry x.path2id fresh,
              collide-counted entry.id i (count_id entry.id x.path2id) x.collisions
                  (count_pos entry.id q x.path2id (c.located entry.id q o)) (c.counted entry.id),
              count_pos entry.id q x.path2id (c.located entry.id q o),
              c.counted i,
            );
            absent = λ i h. ground (arith, count-insert i path entry x.path2id fresh, c.absent i);
            located = λ i p h. Holds-insert i p path entry x.path2id fresh (c.located i p h);
          })

    -- A new path, inserted into a consistent index, leaves a consistent index.
    pub insert_entry-IsConsistent : IsConsistent (insert_entry path entry x)
    insert_entry-IsConsistent = elim (Option-cases (get entry.id x.id2path)) [
      | inl v ↦ vacant-IsConsistent v
      | inr (q, o) ↦ occupied-IsConsistent q o
    ]

  pub path2id-insert_entry :
      (path : FilePath) (entry : IndexEntry ResourceId) (x : ResourceIndex ResourceId)
      → (insert_entry path entry x).path2id ≡ insert path entry x.path2id
  unfolding insert_entry
  path2id-insert_entry path entry x = ground arith
