-- ===== src/Atomic/Register.antt =====
-- `AtomicFile` of fs-atomic-versions/src/atomic as a register that several processes change.
use Prim.Native.String.{◌++◌ as push_str}
use ark_rust.Base.{
  ℕ, ◌+◌, ◌≤◌, ◌^◌, String, List, ◌∷◌, ◌≡◌, none, some, length, refl, sym, ap, ◌∙◌, arith, inl, inr,
}
use ark_rust.Error.{Result-cases, ok}
use ark_rust.Atomic.File.{
  Folder, ReadOnlyFile, AtomicFile, Os, load, latest_version, link, compare_and_swap,
  prune_old_versions,
}
use ark_rust.Atomic.Settled.{load-readable}
use ark_rust.Atomic.Modify.{open_version, buffer, modify}
use ark_rust.Atomic.Races.{
  Stage, idle, holding, checked, linked, move, Racers, Race, read, check, make, prune, give_up, Run,
  here, next, outcome,
}
use ark_rust.Atomic.Fair.{
  RaceInv, line_up-RaceInv, moved-RaceInv, inv-Gives, read-RaceInv, check-RaceInv,
}
use ark_rust.Atomic.Raced.{make-RaceInv, prune-RaceInv}

module _ (file : AtomicFile) (operator : ℕ → String → String) (stem : String)
    (dotted : file.prefix ≡ push_str stem ".") where
  Race-RaceInv :
      (s t : Racers) → Race file operator s t → RaceInv file operator s → RaceInv file operator t
  Race-RaceInv s t (read os i latest content loads opens) inv =
      read-RaceInv file operator stem dotted os s i latest content loads opens inv
  Race-RaceInv s t (check os i latest content version files holds finds le) inv =
      check-RaceInv file operator stem dotted os s i latest content version files holds finds inv
  Race-RaceInv s t (make os i latest content version folder stage links near small) inv =
      make-RaceInv file operator stem dotted os s i latest content version folder stage links near
        small inv
  Race-RaceInv s t (prune os i version stage) inv =
      prune-RaceInv file operator stem dotted os s i version stage inv
  Race-RaceInv s t (give_up i) inv = moved-RaceInv file operator s i idle inv tt

  Run-RaceInv : (s : Racers) → Run file operator s → RaceInv file operator s
  Run-RaceInv s here = line_up-RaceInv file operator
  Run-RaceInv t (next {s = s} run race) = Race-RaceInv s t race (Run-RaceInv s run)

-- In each state that processes reach from an empty folder, which read, check, link and prune one
-- at a time in any order, with any faults of the disk in each step and with fewer than ten
-- versions made between the load and the link of a process, load succeeds on a disk that can read
-- the folder: the version is the number of the links, and its content is what the operators of
-- the processes that have linked make one after the other, where the prefix ends with a dot.
pub modify-Register :
    (file : AtomicFile) (operator : ℕ → String → String) (stem : String) (s : Racers)
    → file.prefix ≡ push_str stem "."
    → Run file operator s
    → (os : Os) → os.read_dir ≡ none
    → (latest : ReadOnlyFile) × (load os file s.folder ≡ ok latest)
      × (latest.version ≡ length s.log)
      × (open_version os latest s.folder ≡ ok (outcome operator s.log))
modify-Register file operator stem s dotted run os readable =
    let inv = Run-RaceInv file operator stem dotted s run in
    let (latest, counts, gives) = inv-Gives file operator stem dotted s inv in
    let (files, finds, loads, opens) = gives os readable in (latest, loads, counts, opens)

-- Where a process has moved.
moved : (stage : ℕ → Stage) (i : ℕ) (p : Stage) → move stage i p i ≡ p
moved stage i p = ground arith

-- The link and the pruning of a swap that succeeds.
swap_parts :
    (os : Os) (file : AtomicFile) (current : ReadOnlyFile) (content : String)
    (folder folder' : Folder) (version : ℕ) (files : List ReadOnlyFile)
    → latest_version os folder ≡ ok (version, files)
    → compare_and_swap os file current content folder ≡ (ok tt, folder')
    → (made : Folder) × (link os file (current.version + 1) content folder ≡ ok made)
      × ((prune_old_versions os version made).1 ≡ folder')
unfolding compare_and_swap
swap_parts os file current content folder folder' version files finds swaps =
    elim (Result-cases (link os file (current.version + 1) content folder)) [
      | inl (cause, fails) ↦ absurd (ground arith)
      | inr (made, links) ↦ (made, links, ground arith)
    ]

-- From each state that processes reach, a modify of one process that returns Ok in one round
-- without interference leads to the folder of another state that they reach, whose log has this
-- process once more, where the prefix ends with a dot and the version is far from 2^64.
pub modify-Run :
    (file : AtomicFile) (operator : ℕ → String → String) (stem : String) (s : Racers) (i : ℕ)
    (os : Os) (folder : Folder)
    → file.prefix ≡ push_str stem "."
    → Run file operator s
    → length s.log + 11 ≤ 2 ^ 64
    → modify os file (operator i) (λ round f. f) 1 s.folder ≡ (some (ok tt), folder)
    → (t : Racers) × Run file operator t × (t.folder ≡ folder) × (t.log ≡ i ∷ s.log)
unfolding modify
modify-Run file operator stem s i os folder dotted run small h =
    elim (Result-cases (load os file s.folder)) [
      | inl (cause, fails) ↦ absurd (ground arith)
      | inr (latest, loads) ↦ elim (Result-cases (open_version os latest s.folder)) [
        | inl (cause, fails) ↦ absurd (ground arith)
        | inr (content, opens) ↦
            let inv = Run-RaceInv file operator stem dotted s run in
            let (now, counts, gives) = inv-Gives file operator stem dotted s inv in
            let (files, finds, load_is, open_is) =
              gives os (load-readable file os s.folder latest loads) in
            let same : now ≡ latest = ground arith in
            let counted : latest.version ≡ length s.log =
              ap (λ (f : ReadOnlyFile). f.version) (sym same) ∙ counts in
            let swaps : compare_and_swap os file latest (operator i (buffer content)) s.folder
                ≡ (ok tt, folder) =
              ground arith in
            let (made, links, is) =
              swap_parts os file latest (operator i (buffer content)) s.folder folder now.version
                files finds swaps in
            let reading : Racers = record s { stage = move s.stage i (holding latest content) } in
            let checking : Racers = record s {
              stage = move reading.stage i (checked latest content now.version);
            } in
            let linking : Racers = record {
              folder = made;
              stage = move checking.stage i (linked now.version);
              log = i ∷ s.log;
            } in
            (
              record linking {
                folder = (prune_old_versions os now.version made).1;
                stage = move linking.stage i idle;
              },
              next
                  (next
                    (next (next run (read os i latest content loads opens)) (
                      check os i latest content now.version files (moved s.stage i _) finds
                        (omega (arith, counted, counts))))
                    (make os i latest content now.version made (moved reading.stage i _) links
                      (omega (arith, counted)) (omega (arith, counted, small))))
                  (prune os i now.version (moved checking.stage i _)),
              is,
              refl,
            )
      ]
    ]
