-- ===== src/Atomic/Fair.antt =====
-- What holds whenever several processes run `modify` of fs-atomic-versions/src/atomic/mod.rs, also
-- between the check and the link of `compare_and_swap`.
use Prim.Native.String.{◌++◌ as push_str}
use mathlib.Core.Path.{subst}
use ark_rust.Base.{
  ℕ, ◌+◌, ◌≤◌, ◌<◌, ◌^◌, ◌==◌, String, Option, some, true, List, [], ◌∷◌, ◌≡◌, ◌⊎◌, refl, sym, ap,
  All, arith, inl, inr, Bool-cases, Option-cases, length,
}
use ark_rust.Error.{ok}
use ark_rust.Atomic.File.{
  Folder, ReadOnlyFile, AtomicFile, Os, parse_version, load, latest_version, name, path, has_name,
}
use ark_rust.Atomic.Latest.{IsPlaced, IsBelow}
use ark_rust.Atomic.Names.{parse-name}
use ark_rust.Atomic.Swap.{linked as entry_of, IsBelow-le, unreadable}
use ark_rust.Atomic.Modify.{open_version}
use ark_rust.Atomic.Settled.{Gives, start-Gives, load-readable, linked-Gives}
use ark_rust.Atomic.Races.{Stage, idle, holding, checked, linked, Racers, move, line_up, outcome}

-- What a process may hold: a version that is not above the latest one; if it is the latest one, with
-- its content.
abbrev pub IsRecent : ℕ → Option String → Stage → Type 0
IsRecent n content idle = Unit
IsRecent n content (holding l c) = (l.version ≤ n) × (l.version ≡ n → c ≡ content)
IsRecent n content (checked l c v) = (l.version ≤ n) × (l.version ≡ n → c ≡ content) × (v ≤ n)
IsRecent n content (linked v) = v ≤ n

module _ (file : AtomicFile) (operator : ℕ → String → String) where
  -- A version that was made stands first, above all others.
  pub record IsMade (folder : Folder) (log : List ℕ) : Type 0 where
    pub os : Os
    pub current : ReadOnlyFile
    pub content : String
    pub rest : Folder
    pub is : folder ≡ entry_of os file current content ∷ rest
    pub counts : length log ≡ current.version + 1
    pub has : outcome operator log ≡ some content
    pub placed : All IsPlaced rest
    pub below : IsBelow current.version rest
    pub small : current.version + 11 ≤ 2 ^ 64

  pub record RaceInv (s : Racers) : Type 0 where
    pub shape : ((s.folder ≡ []) × (s.log ≡ [])) ⊎ IsMade s.folder s.log
    -- the names of the last nine versions are taken
    pub window :
        (v : ℕ)
        → 1 ≤ v
        → v ≤ length s.log
        → length s.log < v + 9
        → has_name (name file v) s.folder ≡ true
    pub recent : (i : ℕ) → IsRecent (length s.log) (outcome operator s.log) (s.stage i)

  pub line_up-RaceInv : RaceInv line_up
  line_up-RaceInv = record {
    shape = inl (refl, refl);
    window = λ v a b c. absurd (omega (arith, a, b));
    recent = λ i. tt;
  }

  pub move-IsRecent :
      (n : ℕ) (content : Option String) (stage : ℕ → Stage) (i : ℕ) (p : Stage)
      → ((j : ℕ) → IsRecent n content (stage j))
      → IsRecent n content p
      → (j : ℕ) → IsRecent n content (move stage i p j)
  move-IsRecent n content stage i p h k j = elim (Bool-cases (j == i)) [
    | inl same ↦ rw same k
    | inr other ↦ rw other (h j)
  ]

  -- A step that moves one process alone.
  pub moved-RaceInv :
      (s : Racers) (i : ℕ) (p : Stage)
      → RaceInv s
      → IsRecent (length s.log) (outcome operator s.log) p
      → RaceInv (record s { stage = move s.stage i p })
  moved-RaceInv s i p inv k = record {
    shape = inv.shape;
    window = inv.window;
    recent = move-IsRecent (length s.log) (outcome operator s.log) s.stage i p inv.recent k;
  }

  pub at_stage :
      (s : Racers) (i : ℕ) (p : Stage)
      → RaceInv s
      → s.stage i ≡ p
      → IsRecent (length s.log) (outcome operator s.log) p
  at_stage s i p inv h = subst (IsRecent (length s.log) (outcome operator s.log)) h (inv.recent i)

  module _ (stem : String) (dotted : file.prefix ≡ push_str stem ".") where
    pub entry-parses :
        (os : Os) (current : ReadOnlyFile) (content : String)
        → current.version + 11 ≤ 2 ^ 64
        → parse_version (entry_of os file current content).file_name ≡ some (current.version + 1)
    entry-parses os current content small =
        parse-name file stem (current.version + 1) dotted (omega (arith, small))

    -- What a load gives.
    pub inv-Gives :
        (s : Racers)
        → RaceInv s
        → (latest : ReadOnlyFile) × (latest.version ≡ length s.log)
          × Gives file s.folder latest (outcome operator s.log)
    unfolding outcome
    inv-Gives s inv = elim inv.shape [
      | inl (empty, none_yet) ↦ (
        record { version = 0; path = path file 0 },
        rw none_yet refl,
        rw (empty, none_yet) (start-Gives file),
      )
      | inr m ↦
          let (placed, gives) =
            linked-Gives file stem dotted m.os m.current m.content m.current.version m.rest m.placed
              (omega arith) m.small m.below in
          (
            record { version = m.current.version + 1; path = path file (m.current.version + 1) },
            sym m.counts,
            rw (m.is, m.has) gives,
          )
    ]

    -- The paths have the versions of their names, and no name exceeds the latest version.
    pub inv-IsPlaced :
        (s : Racers) → RaceInv s → All IsPlaced s.folder × IsBelow (length s.log) s.folder
    inv-IsPlaced s inv = elim inv.shape [
      | inl (empty, none_yet) ↦ rw empty (tt, tt)
      | inr m ↦
          let (placed, gives) =
            linked-Gives file stem dotted m.os m.current m.content m.current.version m.rest m.placed
              (omega arith) m.small m.below in
          let parses = entry-parses m.os m.current m.content m.small in
          rw m.is (
            (placed, m.placed),
            (
              λ w h. ground (arith, m.counts, parses),
              IsBelow-le m.current.version (length s.log) m.rest (omega (arith, m.counts)) m.below,
            ),
          )
    ]

    pub read-RaceInv :
        (os : Os) (s : Racers) (i : ℕ) (latest : ReadOnlyFile) (content : Option String)
        → load os file s.folder ≡ ok latest
        → open_version os latest s.folder ≡ ok content
        → RaceInv s
        → RaceInv (record s { stage = move s.stage i (holding latest content) })
    read-RaceInv os s i latest content loads opens inv =
        let (now, counts, gives) = inv-Gives s inv in
        let (files, finds, load_is, open_is) =
          gives os (load-readable file os s.folder latest loads) in
        let same : now ≡ latest = ground arith in
        let content_is : outcome operator s.log ≡ content = ground arith in
        moved-RaceInv s i (holding latest content) inv
          (omega (arith, counts, ap (λ (f : ReadOnlyFile). f.version) same), λ e. sym content_is)

    pub check-RaceInv :
        (os : Os) (s : Racers) (i : ℕ) (latest : ReadOnlyFile) (content : Option String)
        (version : ℕ) (files : List ReadOnlyFile)
        → s.stage i ≡ holding latest content
        → latest_version os s.folder ≡ ok (version, files)
        → RaceInv s
        → RaceInv (record s { stage = move s.stage i (checked latest content version) })
    check-RaceInv os s i latest content version files holds finds inv =
        let (now, counts, gives) = inv-Gives s inv in
        let (below, kept) = at_stage s i (holding latest content) inv holds in
        elim (Option-cases os.read_dir) [
          | inr (cause, fails) ↦ absurd (ground (arith, unreadable os s.folder cause fails))
          | inl readable ↦
              let (all, found, load_is, open_is) = gives os readable in
              let is : now.version ≡ version = ground arith in
              moved-RaceInv s i (checked latest content version) inv
                (below, kept, omega (arith, is, counts))
        ]
