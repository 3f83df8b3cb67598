-- ===== src/Atomic/Raced.antt =====
-- `modify` of fs-atomic-versions/src/atomic/mod.rs run by several processes: the links, the prunings,
-- and what every run leaves.
use Prim.Native.String.{◌++◌ as push_str}
use ark_rust.Base.{
  ℕ, suc, ◌+◌, ◌≤◌, ◌<◌, ◌^◌, ◌==◌, String, Option, some, false, [], ◌∷◌, ◌≡◌, ◌⊎◌, ◌≢◌, refl, sym,
  ap, ◌∙◌, arith, inl, inr, Bool-cases, length,
}
use ark_rust.Error.{ok}
use ark_rust.Atomic.File.{
  Folder, ReadOnlyFile, AtomicFile, Os, name, has_name, link, prune_old_versions,
}
use ark_rust.Atomic.Latest.{IsPlaced}
use ark_rust.Atomic.Names.{parse-name}
use ark_rust.Atomic.Swap.{linked as entry_of, prune-All}
use ark_rust.Atomic.Modify.{buffer}
use ark_rust.Atomic.Races.{Stage, idle, holding, checked, linked, Racers, move, outcome}
use ark_rust.Atomic.Window.{prune_near, has_name-prune, has_name-first, has_name-later, link_made}
use ark_rust.Atomic.Fair.{
  IsRecent, IsMade, RaceInv, move-IsRecent, at_stage, entry-parses, inv-IsPlaced,
}

-- The latest version is one that a process makes.
later-IsRecent :
    (n : ℕ) (content made : Option String) (p : Stage)
    → IsRecent n content p
    → IsRecent (suc n) made p
later-IsRecent n content made idle h = tt
later-IsRecent n content made (holding l c) h =
    (omega (arith, h.0), λ same. absurd (omega (arith, h.0, same)))
later-IsRecent n content made (checked l c v) h =
    (omega (arith, h.0), (λ same. absurd (omega (arith, h.0, same))), omega (arith, h.2))
later-IsRecent n content made (linked v) h = omega (arith, h)

module _ (file : AtomicFile) (operator : ℕ → String → String) (stem : String)
    (dotted : file.prefix ≡ push_str stem ".") where
  -- A link that succeeds is one of the version after the latest.
  made_next :
      (s : Racers) (current : ReadOnlyFile)
      → RaceInv file operator s
      → current.version ≤ length s.log
      → length s.log < current.version + 10
      → has_name (name file (current.version + 1)) s.folder ≡ false
      → current.version ≡ length s.log
  made_next s current inv le near free = elim (Bool-cases (current.version == length s.log)) [
    | inl same ↦ ground arith
    | inr other ↦
        let lt : current.version < length s.log = ground arith in
        absurd (
          ground (
            arith,
            inv.window (current.version + 1) (omega arith) (omega (arith, lt))
                (omega (arith, near)),
          ))
  ]

  pub make-RaceInv :
      (os : Os) (s : Racers) (i : ℕ) (latest : ReadOnlyFile) (content : Option String) (version : ℕ)
      (folder : Folder)
      → s.stage i ≡ checked latest content version
      → link os file (latest.version + 1) (operator i (buffer content)) s.folder ≡ ok folder
      → length s.log < latest.version + 10
      → latest.version + 11 ≤ 2 ^ 64
      → RaceInv file operator s
      → RaceInv file operator
          (record { folder = folder; stage = move s.stage i (linked version); log = i ∷ s.log })
  unfolding outcome
  make-RaceInv os s i latest content version folder stage links near small inv =
      let (below, kept, before) =
        at_stage file operator s i (checked latest content version) inv stage in
      let (is, free) =
        link_made os file latest (operator i (buffer content)) s.folder folder links in
      let same = made_next s latest inv below near free in
      let content_is : content ≡ outcome operator s.log = kept same in
      let (placed, under) = inv-IsPlaced file operator stem dotted s inv in
      record {
        shape = inr (record {
          os = os;
          current = latest;
          content = operator i (buffer content);
          rest = s.folder;
          is = is;
          counts = omega (arith, same);
          has = ap (λ c. some (operator i (buffer c))) (sym content_is);
          placed = placed;
          below = rw same under;
          small = small;
        });
        window = λ v one le near_v. elim (Bool-cases (v == latest.version + 1)) [
          | inl newest ↦
              let v_is : v ≡ latest.version + 1 = ground arith in
              rw is (
                has_name-first (name file v) (entry_of os file latest (operator i (buffer content)))
                  s.folder (ap (λ n. some (name file n)) (sym v_is)))
          | inr old ↦
              let apart : v ≢ latest.version + 1 = ground arith in
              rw is (
                has_name-later (name file v) (entry_of os file latest (operator i (buffer content)))
                  s.folder
                  (inv.window v one (omega (arith, same, le, apart)) (omega (arith, near_v))))
        ];
        recent =
            move-IsRecent file operator (suc (length s.log))
              (some (operator i (buffer (outcome operator s.log)))) s.stage i (linked version)
              (λ j.
                later-IsRecent (length s.log) (outcome operator s.log) _ (s.stage j) (inv.recent j))
              (omega (arith, before));
      }

  log_small : (s : Racers) → RaceInv file operator s → length s.log + 10 ≤ 2 ^ 64
  log_small s inv = elim inv.shape [
    | inl (empty, none_yet) ↦ rw none_yet (omega arith)
    | inr m ↦ omega (arith, m.counts, m.small)
  ]

  prune-shape :
      (os : Os) (s : Racers) (version : ℕ)
      → version ≤ length s.log
      → RaceInv file operator s
      → (((prune_old_versions os version s.folder).1 ≡ []) × (s.log ≡ []))
        ⊎ IsMade file operator (prune_old_versions os version s.folder).1 s.log
  unfolding prune_old_versions
  prune-shape os s version le inv = elim inv.shape [
    | inl (empty, none_yet) ↦ inl (rw empty refl, none_yet)
    | inr m ↦ inr (record {
      os = m.os;
      current = m.current;
      content = m.content;
      rest = (prune_old_versions os version m.rest).1;
      is =
          ap (λ f. (prune_old_versions os version f).1) m.is
          ∙ prune_near os (m.current.version + 1) version (entry_of m.os file m.current m.content)
              m.rest (entry-parses file operator stem dotted m.os m.current m.content m.small)
              (omega (arith, le, m.counts)) (omega (arith, m.small));
      counts = m.counts;
      has = m.has;
      placed = prune-All IsPlaced os version m.rest m.placed;
      below = prune-All _ os version m.rest m.below;
      small = m.small;
    })
  ]

  pub prune-RaceInv :
      (os : Os) (s : Racers) (i version : ℕ)
      → s.stage i ≡ linked version
      → RaceInv file operator s
      → RaceInv file operator (record s {
        folder = (prune_old_versions os version s.folder).1;
        stage = move s.stage i idle;
      })
  prune-RaceInv os s i version stage inv =
      let le = at_stage file operator s i (linked version) inv stage in
      record {
        shape = prune-shape os s version le inv;
        window = λ v one le_v near_v.
            has_name-prune os (name file v) v version s.folder
              (parse-name file stem v dotted (omega (arith, le_v, log_small s inv)))
              (omega (arith, le, near_v)) (omega (arith, le_v, log_small s inv))
              (inv.window v one le_v near_v);
        recent =
            move-IsRecent file operator (length s.log) (outcome operator s.log) s.stage i idle
              inv.recent tt;
      }
