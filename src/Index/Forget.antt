-- ===== src/Index/Forget.antt =====
-- `forget_path` and `forget_id` of fs-index/src/index.rs: what is left of the index.
use ark_rust.Base.{
  Eq, ◌≟◌, string_eq, ℕ, zero, suc, ◌+◌, ◌-◌, ◌<◌, ◌≡◌, ◌≢◌, refl, sym, ite, true, false, List, [],
  ◌∷◌, none, some, arith, inl, inr, ltb, ap, ◌∙◌, Bool-cases, if◌then◌else◌, Option-cases, ◌⊎◌,
}
use ark_rust.Error.{ok, returned, panic}
use ark_rust.Map.{Map, get, insert, remove, get-insert, get-remove}
use ark_rust.Map.Keys.{remove-IsUnique}
use ark_rust.Index.State.{
  FilePath, IndexEntry, ResourceIndex, Profile, forget_path, forget_id, relocate, uncollide,
  decrement, was_at, only_deleted, find_path, remove_each, drained,
}
use ark_rust.Index.Tracking.{
  count_id, one_if, Holds, IsConsistent, count-remove, count_pos, find_path-none, find_path-Holds,
}

module _ {ResourceId : Type 0} ⦃e : Eq ResourceId⦄ where
  -- Debug assertions are on, and the index records another path for the id.
  pub record Misplaced (b : Profile) (path : FilePath) (old_id : ResourceId)
      (x : ResourceIndex ResourceId) : Type 0 where
    pub debug : b.debug_assertions ≡ true
    pub other : FilePath
    pub recorded : get old_id x.id2path ≡ some other
    pub apart : other ≢ path

  uncollide-counted :
      (i j : ResourceId) (n : ℕ) (cs : Map ResourceId ℕ)
      → 1 < n
      → get j (uncollide i n cs)
        ≡ ite (i ≟ j) (if ltb 1 (n - 1) then some (n - 1) else none) (get j cs)
  unfolding uncollide decrement
  uncollide-counted i j zero cs h = absurd (omega arith)
  uncollide-counted i j (suc n) cs h = ground (arith, get-insert i j n cs, get-remove i j cs)

  pub Holds-remove :
      (i j : ResourceId) (p q : FilePath) (m : Map FilePath (IndexEntry ResourceId))
      → i ≢ j
      → Holds q j m
      → Holds p i m
      → Holds p i (remove q m)
  Holds-remove i j p q m different (v, gq, kq) (w, gp, kp) = (
    w,
    elim (q ≟ p) [ yes same ↦ absurd (ground arith) | no apart ↦ ground (arith, get-remove q p m) ],
    kp,
  )

  module _ (path : FilePath) (old_id : ResourceId) (x : ResourceIndex ResourceId)
      (c : IsConsistent x) (held : Holds path old_id x.path2id) where
    abbrev left : Map FilePath (IndexEntry ResourceId)
    left = remove path x.path2id

    count-left : (i : ResourceId) → count_id i x.path2id ≡ one_if old_id i + count_id i left
    count-left i =
        let (en, g, k) = held in ground (arith, count-remove i path en x.path2id c.unique g)

    -- The state after `forget_path` where the id is in no collision.
    abbrev pub forgotten : ResourceIndex ResourceId
    forgotten = record x { path2id = left; id2path = remove old_id x.id2path }

    forgotten-IsConsistent : get old_id x.collisions ≡ none → IsConsistent forgotten
    forgotten-IsConsistent h = record {
      unique = remove-IsUnique path x.path2id c.unique;
      counted =
          λ i. ground (arith, c.counted i, count-left i, count_pos old_id path x.path2id held);
      absent = λ i g.
          ground (arith, c.counted old_id, count-left i, c.absent i, get-remove old_id i x.id2path);
      located = λ i p g. elim (old_id ≟ i) [
        | yes same ↦ absurd (ground (arith, get-remove old_id i x.id2path))
        | no different ↦
            Holds-remove i old_id p path x.path2id (λ s. different (sym s)) held
              (c.located i p (ground (arith, get-remove old_id i x.id2path)))
      ];
    }

    -- The state after `forget_path` where the id was counted `n` times.
    abbrev pub relocated : ℕ → FilePath → ResourceIndex ResourceId
    relocated n q = record x {
      path2id = left;
      collisions = uncollide old_id n x.collisions;
      id2path = insert old_id q x.id2path;
    }

    relocated-IsConsistent :
        (n : ℕ) (q : FilePath)
        → get old_id x.collisions ≡ some n
        → find_path old_id left ≡ some q
        → IsConsistent (relocated n q)
    relocated-IsConsistent n q h f = record {
      unique = remove-IsUnique path x.path2id c.unique;
      counted = λ i. ground (
        arith,
        uncollide-counted old_id i n x.collisions,
        c.counted i,
        c.counted old_id,
        count-left i,
      );
      absent = λ i g. ground (arith, count-left i, c.absent i, get-insert old_id i q x.id2path);
      located = λ i p g. elim (old_id ≟ i) [
        | yes same ↦
            let (en, gq, kq) =
              find_path-Holds old_id q left (remove-IsUnique path x.path2id c.unique) f in
            (en, ground (arith, get-insert old_id i q x.id2path), ground arith)
        | no different ↦
            Holds-remove i old_id p path x.path2id (λ s. different (sym s)) held
              (c.located i p (ground (arith, get-insert old_id i q x.id2path)))
      ];
    }

    not-find_path-none : (n : ℕ) → get old_id x.collisions ≡ some n → find_path old_id left ≢ none
    not-find_path-none n h f =
        absurd (ground (arith, c.counted old_id, count-left old_id, find_path-none old_id left f))

    many : (n : ℕ) → get old_id x.collisions ≡ some n → 1 < n
    many n h = ground (arith, c.counted old_id)

    relocate_ok :
        (b : Profile) (n : ℕ) (q : FilePath)
        → get old_id x.collisions ≡ some n
        → find_path old_id left ≡ some q
        → (b.debug_assertions ≡ false) ⊎ (get old_id x.id2path ≡ some path)
        → forget_path b path old_id x ≡ (returned (ok (only_deleted old_id)), relocated n q)
    unfolding forget_path was_at
    relocate_ok b n q h f (inl release) = rw (h, release, forget_path) (rw (f, relocate))
    relocate_ok b n q h f (inr recorded) = ground (arith, many n h)

    pub forget_path-IsConsistent :
        (b : Profile)
        → (b.debug_assertions ≡ false) ⊎ (get old_id x.id2path ≡ some path)
        → (y : ResourceIndex ResourceId) × (forget_path b path old_id x
            ≡ (returned (ok (only_deleted old_id)), y))
          × IsConsistent y
          × (y.path2id ≡ left)
    unfolding forget_path
    forget_path-IsConsistent b allowed = elim (Option-cases (get old_id x.collisions)) [
      | inl alone ↦ (forgotten, rw (alone, forget_path), forgotten-IsConsistent alone, refl)
      | inr (n, h) ↦ elim (Option-cases (find_path old_id left)) [
        | inl lost ↦ absurd (not-find_path-none n h lost)
        | inr (q, f) ↦
            (relocated n q, relocate_ok b n q h f allowed, relocated-IsConsistent n q h f, refl)
      ]
    ]

    still_held :
        (q : FilePath)
        → get old_id x.id2path ≡ some q
        → q ≢ path
        → (n : ℕ) × (get old_id x.collisions ≡ some n) × (find_path old_id left ≢ none)
    still_held q recorded apart =
        let (w, g, k) = c.located old_id q recorded in
        let pos : 0 < count_id old_id left =
          count_pos old_id q left (w, ground (arith, get-remove path q x.path2id), k) in
        (
          count_id old_id x.path2id,
          ground (arith, c.counted old_id, count-left old_id, pos),
          λ f. absurd (omega (arith, find_path-none old_id left f, pos)),
        )

    pub forget_path-panic :
        (b : Profile) (q : FilePath)
        → b.debug_assertions ≡ true
        → get old_id x.id2path ≡ some q
        → q ≢ path
        → (forget_path b path old_id x).0 ≡ panic
    unfolding forget_path was_at
    forget_path-panic b q debug recorded apart =
        let (n, h, f) = still_held q recorded apart in ground (arith, h, f, many n h)

    pub Misplaced-cases :
        (b : Profile)
        → ((b.debug_assertions ≡ false) ⊎ (get old_id x.id2path ≡ some path))
          ⊎ Misplaced b path old_id x
    Misplaced-cases b = elim (Option-cases (get old_id x.id2path)) [
      | inl unknown ↦
          absurd (omega (arith, c.absent old_id unknown, count_pos old_id path x.path2id held))
      | inr (q, recorded) ↦ elim (q ≟ path) [
        | yes same ↦ inl (inr (recorded ∙ ap (λ p. some p) same))
        | no apart ↦ elim (Bool-cases b.debug_assertions) [
          | inl debug ↦
              inr (record { debug = debug; other = q; recorded = recorded; apart = apart })
          | inr release ↦ inl (inl release)
        ]
      ]
    ]

    -- forget_path of a path that a consistent index maps into the id either succeeds, reports
    -- only this id as deleted, removes this path and nothing else from path2id and keeps the
    -- index consistent, or panics, and then the build has debug assertions and id2path records
    -- another path for the id.
    pub forget_path_lem :
        (b : Profile)
        → ((y : ResourceIndex ResourceId) × (forget_path b path old_id x
              ≡ (returned (ok (only_deleted old_id)), y))
            × IsConsistent y
            × (y.path2id ≡ remove path x.path2id))
          ⊎ (Misplaced b path old_id x × ((forget_path b path old_id x).0 ≡ panic))
    forget_path_lem b = elim (Misplaced-cases b) [
      | inl allowed ↦ inl (forget_path-IsConsistent b allowed)
      | inr m ↦ inr (m, forget_path-panic b m.other m.debug m.recorded m.apart)
    ]

  remove_each_empty : (ps : List FilePath) → remove_each {ResourceId = ResourceId} ps [] ≡ []
  unfolding remove_each remove
  remove_each_empty [] = refl
  remove_each_empty (p ∷ ps) = remove_each_empty ps

  -- forget_id of one id breaks the consistency of every index that knows another id.
  pub not-IsConsistent-forget_id :
      (old_id other : ResourceId) (q : FilePath) (x : ResourceIndex ResourceId)
      → get other x.id2path ≡ some q
      → other ≢ old_id
      → ¬ IsConsistent (forget_id old_id x).1
  unfolding forget_id get
  not-IsConsistent-forget_id old_id other q x known different c =
      let (en, g, k) = c.located other q (ground (arith, get-remove old_id other x.id2path)) in
      cc (remove_each_empty (drained old_id x.path2id), g)
