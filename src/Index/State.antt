-- ===== src/Index/State.antt =====
-- fs-index/src/index.rs: the state of the index, `insert_entry`, `forget_path` and `forget_id`.
-- A method returns its result with the state that it leaves, also beside an error.
use ark_rust.Base.{
  Eq, ◌≟◌, string_eq, zero, suc, ◌^◌, length, ℕ, ◌+◌, ◌-◌, String, Bool, true, false, not, ◌&&◌,
  ite, Option, none, some, List, [], ◌∷◌, leb, ◌==◌, if◌then◌else◌,
}
use ark_rust.Error.{ArklibError, Outcome, ok, err, returned, panic}
use ark_rust.Map
use ark_rust.Map.{Map}

-- `PathBuf` and `CanonicalPathBuf`, by the text that they display.
abbrev pub FilePath : Type 0
FilePath = String

-- A point in time, in nanoseconds from the earliest one that the platform can show.
abbrev pub SystemTime : Type 0
SystemTime = ℕ

-- What the build of the program fixes: `debug_assert!` is checked, and the arguments of
-- `log::trace!` are evaluated.
pub record Profile : Type 0 where
  pub debug_assertions : Bool
  pub trace_enabled : Bool

-- `debug_assert_eq!(old_path.unwrap(), path)`.
unfoldable pub was_at : FilePath → Option FilePath → Bool
was_at path none = false
was_at path (some old) = ite (old ≟ path) true false

-- `*n -= 1` on a `usize` without overflow checks.
unfoldable pub decrement : ℕ → ℕ
decrement zero = 2 ^ 64 - 1
decrement (suc n) = n

module _ (ResourceId : Type 0) where
  pub record IndexEntry : Type 0 where
    pub modified : SystemTime
    pub id : ResourceId

  pub record ResourceIndex : Type 0 where
    pub id2path : Map ResourceId FilePath
    pub path2id : Map FilePath IndexEntry
    pub collisions : Map ResourceId ℕ
    pub root : FilePath

  pub record IndexUpdate : Type 0 where
    pub deleted : List ResourceId
    pub added : Map FilePath ResourceId

  -- A method's result and the index that it leaves.
  abbrev pub Reply : Type 0 → Type 0
  Reply A = Outcome ArklibError A × ResourceIndex

module _ {ResourceId : Type 0} ⦃e : Eq ResourceId⦄ where
  unfoldable pub size : ResourceIndex ResourceId → ℕ
  size x = length x.path2id

  -- The tail of `insert_entry` where the id has a path already.
  unfoldable pub collide : ResourceId → Map ResourceId ℕ → Map ResourceId ℕ
  collide id cs = elim (Map.get id cs) [
    | some nonempty ↦ Map.insert id (nonempty + 1) cs
    | none ↦ Map.insert id 2 cs
  ]

  unfoldable pub insert_entry :
      FilePath → IndexEntry ResourceId → ResourceIndex ResourceId → ResourceIndex ResourceId
  insert_entry path entry x = elim (Map.get entry.id x.id2path) [
    | none ↦ record x {
      id2path = Map.insert entry.id path x.id2path;
      path2id = Map.insert path entry x.path2id;
    }
    | some _ ↦ record x {
      collisions = collide entry.id x.collisions;
      path2id = Map.insert path entry x.path2id;
    }
  ]

  -- `find_map` over `path2id`: the first path whose entry has the id.
  unfoldable pub find_path : ResourceId → Map FilePath (IndexEntry ResourceId) → Option FilePath
  find_path id [] = none
  find_path id ((path, entry) ∷ m) = ite (entry.id ≟ id) (some path) (find_path id m)

  abbrev pub only_deleted : ResourceId → IndexUpdate ResourceId
  only_deleted id = record { deleted = id ∷ []; added = [] }

  -- `*collisions -= 1`, and the entry is dropped when one resource is left.
  unfoldable pub uncollide : ResourceId → ℕ → Map ResourceId ℕ → Map ResourceId ℕ
  uncollide id n cs =
      let left = decrement n in if left == 1 then Map.remove id cs else Map.insert id left cs

  -- What `forget_path` does once the counter is lowered: the id moves to a path that still has it.
  unfoldable pub relocate :
      Profile
      → FilePath
      → ResourceId
      → ResourceIndex ResourceId
      → Reply ResourceId (IndexUpdate ResourceId)
  relocate b path old_id x = elim (find_path old_id x.path2id) [
    | none ↦ (returned (err (ArklibError.collision "Illegal state of collision tracker")), x)
    | some collided ↦
        let y : ResourceIndex ResourceId = record x {
          id2path = Map.insert old_id collided x.id2path;
        } in
        if b.debug_assertions && not (was_at path (Map.get old_id x.id2path))
        then (panic, y)
        else (returned (ok (only_deleted old_id)), y)
  ]

  unfoldable pub forget_path :
      Profile
      → FilePath
      → ResourceId
      → ResourceIndex ResourceId
      → Reply ResourceId (IndexUpdate ResourceId)
  unfolding relocate
  forget_path b path old_id x =
      let m = Map.remove path x.path2id in
      elim (Map.get old_id x.collisions) [
        | none ↦ (
          returned (ok (only_deleted old_id)),
          record x { path2id = m; id2path = Map.remove old_id x.id2path },
        )
        | some n ↦
            if b.debug_assertions && leb n 1
            then (panic, record x { path2id = m })
            else relocate b path old_id
                (record x { path2id = m; collisions = uncollide old_id n x.collisions })
      ]

  -- The keys that `drain` yields for the id.
  unfoldable pub drained : ResourceId → Map FilePath (IndexEntry ResourceId) → List FilePath
  drained old_id [] = []
  drained old_id ((path, entry) ∷ m) =
      let rest = drained old_id m in ite (entry.id ≟ old_id) (path ∷ rest) rest

  unfoldable pub remove_each :
      List FilePath → Map FilePath (IndexEntry ResourceId) → Map FilePath (IndexEntry ResourceId)
  remove_each [] m = m
  remove_each (p ∷ ps) m = remove_each ps (Map.remove p m)

  -- `drain` has emptied `path2id` when the removals start.
  unfoldable pub forget_id :
      ResourceId → ResourceIndex ResourceId → Reply ResourceId (IndexUpdate ResourceId)
  unfolding remove_each drained
  forget_id old_id x = (
    returned (ok (only_deleted old_id)),
    record x {
      path2id = remove_each (drained old_id x.path2id) [];
      id2path = Map.remove old_id x.id2path;
    },
  )
