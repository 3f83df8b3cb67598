-- ===== src/Atomic/Ends.antt =====
-- `modify` of fs-atomic-versions/src/atomic/mod.rs comes to an end, whatever other processes do before.
use ark_rust.Base.{
  ℕ, zero, suc, String, true, false, some, ◌≡◌, ap, ◌∙◌, arith, inl, inr, Bool-cases, if◌then◌else◌,
}
use ark_rust.Error.{IoError, Result, ok}
use ark_rust.Atomic.File.{Folder, ReadOnlyFile, AtomicFile, Os, compare_and_swap}
use ark_rust.Atomic.Progress.{compare_and_swap_runs}
use ark_rust.Atomic.Modify.{modify, buffer, retries}
use ark_rust.Atomic.Settle.{IsReady}

-- A swap after which the loop starts again has left the folder as it was.
compare_and_swap_kept :
    (os : Os) (file : AtomicFile) (current : ReadOnlyFile) (content : String) (folder : Folder)
    → retries (compare_and_swap os file current content folder).0 ≡ true
    → (compare_and_swap os file current content folder).1 ≡ folder
unfolding compare_and_swap
compare_and_swap_kept os file current content folder h = ground arith

modify_again :
    (os : Os) (file : AtomicFile) (operator : String → String) (others : ℕ → Folder → Folder)
    (m : ℕ) (folder : Folder) (r : IsReady os file folder)
    → retries (compare_and_swap os file r.latest (operator (buffer r.content)) (others m folder)).0
      ≡ true
    → modify os file operator others (suc m) folder
      ≡ modify os file operator others m
          (compare_and_swap os file r.latest (operator (buffer r.content)) (others m folder)).1
unfolding modify
modify_again os file operator others m folder r again =
    rw (r.loads, modify)
      (rw r.opens (
        ap
          (λ b.
            if b
            then modify os file operator others m
                (compare_and_swap os file r.latest (operator (buffer r.content))
                  (others m folder)).1
            else (
              some
                  (compare_and_swap os file r.latest (operator (buffer r.content))
                    (others m folder)).0,
              (compare_and_swap os file r.latest (operator (buffer r.content)) (others m folder)).1,
            ))
          again))

modify_over :
    (os : Os) (file : AtomicFile) (operator : String → String) (others : ℕ → Folder → Folder)
    (m : ℕ) (folder : Folder) (r : IsReady os file folder)
    → retries (compare_and_swap os file r.latest (operator (buffer r.content)) (others m folder)).0
      ≡ false
    → modify os file operator others (suc m) folder ≡ (
      some (compare_and_swap os file r.latest (operator (buffer r.content)) (others m folder)).0,
      (compare_and_swap os file r.latest (operator (buffer r.content)) (others m folder)).1,
    )
unfolding modify
modify_over os file operator others m folder r over =
    rw (r.loads, modify)
      (rw r.opens (
        ap
          (λ b.
            if b
            then modify os file operator others m
                (compare_and_swap os file r.latest (operator (buffer r.content))
                  (others m folder)).1
            else (
              some
                  (compare_and_swap os file r.latest (operator (buffer r.content))
                    (others m folder)).0,
              (compare_and_swap os file r.latest (operator (buffer r.content)) (others m folder)).1,
            ))
          over))

modify_still :
    (os : Os) (file : AtomicFile) (operator : String → String) (others : ℕ → Folder → Folder)
    (folder folder' : Folder) (r : IsReady os file folder)
    → others 0 folder ≡ folder
    → compare_and_swap os file r.latest (operator (buffer r.content)) folder ≡ (ok tt, folder')
    → modify os file operator others 1 folder ≡ (some (ok tt), folder')
unfolding modify
modify_still os file operator others folder folder' r still swaps =
    rw (r.loads, modify) (rw r.opens (rw still (ground (arith, swaps))))

-- modify comes to an end in the last of its rounds or before, where no process interferes in that
-- round, the folder is ready for another version, and what other processes do in the rounds
-- before keeps it ready.
pub modify_ends :
    (os : Os) (file : AtomicFile) (operator : String → String) (others : ℕ → Folder → Folder)
    (n : ℕ) (folder : Folder)
    → ((g : Folder) → others 0 g ≡ g)
    → ((round : ℕ) (g : Folder) → IsReady os file g → IsReady os file (others round g))
    → IsReady os file folder
    → (result : Result IoError Unit) × (folder' : Folder) × (modify os file operator others
          (suc n)
          folder
        ≡ (some result, folder'))
modify_ends os file operator others zero folder still keeps r =
    let new : String = operator (buffer r.content) in
    let (folder', swaps) =
      compare_and_swap_runs os file r.latest new folder r.placed r.readable r.syncs r.links r.free
        r.under in
    (ok tt, folder', modify_still os file operator others folder folder' r (still folder) swaps)
modify_ends os file operator others (suc n) folder still keeps r =
    let new : String = operator (buffer r.content) in
    let after : Folder = others (suc n) folder in
    elim (Bool-cases (retries (compare_and_swap os file r.latest new after).0)) [
      | inl again ↦
          let (result, folder', ends) =
            modify_ends os file operator others n after still keeps (keeps (suc n) folder r) in
          (
            result,
            folder',
            modify_again os file operator others (suc n) folder r again
                ∙ ap (modify os file operator others (suc n))
                    (compare_and_swap_kept os file r.latest new after again)
                ∙ ends,
          )
      | inr over ↦ (
        (compare_and_swap os file r.latest new after).0,
        (compare_and_swap os file r.latest new after).1,
        modify_over os file operator others (suc n) folder r over,
      )
    ]
