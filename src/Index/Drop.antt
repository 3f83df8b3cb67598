-- ===== src/Index/Drop.antt =====
-- The loop of `update_all` (fs-index/src/index.rs) over the paths that are gone or updated, and
-- the consistency of the index after `update_all`.
use ark_rust.Base.{
  Eq, ◌+◌, ◌≟◌, string_eq, ◌≡◌, refl, sym, none, some, List, [], ◌∷◌, arith, inl, inr, Option-cases,
}
use ark_rust.Map.{Map, get, remove, get-remove, get_new}
use ark_rust.Map.Keys.{remove-IsUnique}
use ark_rust.Index.State.{FilePath, IndexEntry, ResourceIndex}
use ark_rust.Index.Scan.{Disk, DirEntry}
use ark_rust.Index.Tracking.{IsConsistent, count_id, one_if, count-remove}
use ark_rust.Index.Forget.{Holds-remove}
use ark_rust.Index.Build.{insert_each-IsConsistent}
use ark_rust.Index.Update.{drop_path, drop_paths, update_all}
use ark_rust.Index.Refresh.{
  updated_paths, update_all-runs, added, added-IsUnique, dropped, added-apart,
}

module _ {ResourceId : Type 0} ⦃e : Eq ResourceId⦄ where
  -- A consistent index in which no id has two paths.
  pub record IsPlain (x : ResourceIndex ResourceId) : Type 0 where
    pub consistent : IsConsistent x
    pub no_collisions : (i : ResourceId) → get i x.collisions ≡ none

  module _ (path : FilePath) (entry : IndexEntry ResourceId) (x : ResourceIndex ResourceId)
      (found : get path x.path2id ≡ some entry) where
    abbrev removed : ResourceIndex ResourceId
    removed = record x {
      path2id = remove path x.path2id;
      collisions = remove entry.id x.collisions;
      id2path = remove entry.id x.id2path;
    }

    drop_path-removed :
        (deleted : List ResourceId)
        → get entry.id x.collisions ≡ none
        → (drop_path path (deleted, x)).1 ≡ removed
    unfolding drop_path
    drop_path-removed deleted h = ground arith

    removed-IsPlain : IsPlain x → IsPlain removed
    removed-IsPlain s = record {
      consistent = record {
        unique = remove-IsUnique path x.path2id c.unique;
        counted = λ i.
            ground
              (arith, counts i, c.counted i, s.no_collisions i, get-remove entry.id i x.collisions);
        absent = λ i h. ground (
          arith,
          counts i,
          c.counted i,
          s.no_collisions i,
          c.absent i,
          get-remove entry.id i x.id2path,
        );
        located = λ i p g. elim (entry.id ≟ i) [
          | yes same ↦ absurd (ground (arith, get-remove entry.id i x.id2path))
          | no different ↦
              Holds-remove i entry.id p path x.path2id (λ q. different (sym q)) (entry, found, refl)
                (c.located i p (ground (arith, get-remove entry.id i x.id2path)))
        ];
      };
      no_collisions = λ i. ground (arith, s.no_collisions i, get-remove entry.id i x.collisions);
    }
      where
        c : IsConsistent x
        c = s.consistent

        counts :
            (i : ResourceId)
            → count_id i x.path2id ≡ one_if entry.id i + count_id i (remove path x.path2id)
        counts i = count-remove i path entry x.path2id c.unique found

    -- Dropping one of exactly two paths with an id leaves the counter of the id at one, and so an
    -- index that is not consistent.
    not-IsConsistent-drop_path :
        (deleted : List ResourceId)
        → IsConsistent x
        → count_id entry.id x.path2id ≡ 2
        → ¬ IsConsistent (drop_path path (deleted, x)).1
    unfolding drop_path
    not-IsConsistent-drop_path deleted c two d = ground (
      arith,
      c.counted entry.id,
      d.counted entry.id,
      get_new entry.id 1 (remove entry.id x.collisions),
    )

  drop_path-IsPlain :
      (path : FilePath) (s : List ResourceId × ResourceIndex ResourceId)
      → IsPlain s.1
      → IsPlain (drop_path path s).1
  unfolding drop_path
  drop_path-IsPlain path (deleted, x) h = elim (Option-cases (get path x.path2id)) [
    | inl unknown ↦ rw (unknown, drop_path) h
    | inr (entry, found) ↦
        rw (drop_path-removed path entry x found deleted (h.no_collisions entry.id))
          (removed-IsPlain path entry x found h)
  ]

  drop_paths-IsPlain :
      (ps : List FilePath) (s : List ResourceId × ResourceIndex ResourceId)
      → IsPlain s.1
      → IsPlain (drop_paths ps s).1
  unfolding drop_paths
  drop_paths-IsPlain [] s h = h
  drop_paths-IsPlain (p ∷ ps) s h = drop_paths-IsPlain ps (drop_path p s) (drop_path-IsPlain p s h)

  -- From a consistent index without collisions update_all makes a consistent index, where it does
  -- not panic.
  pub update_all-IsConsistent :
      (disk : Disk ResourceId) (x : ResourceIndex ResourceId) (updated : Map FilePath DirEntry)
      → updated_paths disk x ≡ some updated
      → IsPlain x
      → IsConsistent (update_all disk x).1
  update_all-IsConsistent disk x updated stops h = rw (update_all-runs disk x updated stops) (
      insert_each-IsConsistent (added disk x updated stops) (dropped disk x updated).1
        (added-IsUnique disk x updated stops) (added-apart disk x updated stops)
        (drop_paths-IsPlain _ ([], x) h).consistent)
