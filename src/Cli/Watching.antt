-- ===== src/Cli/Watching.antt =====
-- ark-cli/src/util.rs: when `monitor_index` goes on, and what `collisions` shows.
use ark_rust.Base.{
  Eq, string_eq, ℕ, String, ◌⊎◌, Option, Option-cases, false, none, some, List, [], ◌∷◌, ◌≡◌, ◌≢◌,
  ◌↔◌, length, refl, sym, ap, ◌∙◌, arith, ltb, if◌then◌else◌, inl, inr,
}
use ark_rust.Error.{ArklibError, Result, Outcome, ok, err, returned, panic}
use ark_rust.Exec.{unfinished}
use ark_rust.Map.{Map, get, get_new}
use ark_rust.Index.State.{size, FilePath, ResourceIndex, IndexUpdate}
use ark_rust.Index.Scan.{Disk, build}
use ark_rust.Index.Build.{build-IsConsistent}
use ark_rust.Index.Tracking.{count_id}
use ark_rust.Index.Update.{update_all, apply_update}
use ark_rust.Index.Refresh.{updated_paths}
use ark_rust.Error.{Result-cases, Outcome-cases}
use ark_rust.Index.Clock.{GoesForward, update_all-panic_iff}
use ark_rust.Index.Load.{IndexFile, load}
use ark_rust.Index.Store.{Printer, store, provide}
use ark_rust.Cli.Roots.{Shell, provide_root}
use ark_rust.Cli.Monitor.{
  Round, entries, Locks, Watched, left_text, watch, collisions_run, monitor_index,
}
use ark_rust.Cli.Registrar.{provide_index}

panic_ne : {E A : Type 0} {r : Result E A} → Outcome.panic ≢ returned r
panic_ne h = cc

err_ne : {E A : Type 0} {x : E} {a : A} → Result.err x ≢ ok a
err_ne h = cc

returned_inj : {E A : Type 0} {r s : Result E A} → returned r ≡ returned s → r ≡ s
returned_inj h = cc

module _ {ResourceId : Type 0} ⦃e : Eq ResourceId⦄ (shell : Shell) (disk : Disk ResourceId)
    (file : IndexFile ResourceId) (printer : Printer ResourceId) (locks : Locks) where
  -- In each round no known file has an earlier time than the recorded one, and the store succeeds.
  abbrev pub AllRun : List (Round ResourceId) → ResourceIndex ResourceId → Type 0
  AllRun [] index = Unit
  AllRun (round ∷ rounds) index =
      GoesForward round.disk index
      × ((store round.printer file.unix_epoch (update_all round.disk index).1).0 ≡ ok tt)
      × AllRun rounds (update_all round.disk index).1

  update_all-no_err :
      (now : Disk ResourceId) (x : ResourceIndex ResourceId) (cause : ArklibError)
      → (update_all now x).0 ≢ returned (err cause)
  unfolding update_all apply_update
  update_all-no_err now x cause = elim (Option-cases (updated_paths now x)) [
    | inl stops ↦ rw (stops, update_all) (λ h. panic_ne h)
    | inr (u, goes) ↦ rw (goes, update_all) (λ h. err_ne (returned_inj (sym h)))
  ]

  -- An update panics or succeeds.
  update_all-runs_or :
      (now : Disk ResourceId) (x : ResourceIndex ResourceId)
      → ((update_all now x).0 ≡ panic)
        ⊎ ((diff : IndexUpdate ResourceId) × ((update_all now x).0 ≡ returned (ok diff)))
  unfolding update_all apply_update
  update_all-runs_or now x = elim (Outcome-cases (update_all now x).0) [
    | inl panics ↦ inl panics
    | inr (inl (cause, fails)) ↦ absurd (update_all-no_err now x cause fails)
    | inr (inr updates) ↦ inr updates
  ]

  watch_panics :
      (round : Round ResourceId) (rounds : List (Round ResourceId))
      (index : ResourceIndex ResourceId) (text : Option String)
      → (update_all round.disk index).0 ≡ panic
      → (watch shell disk file printer locks (round ∷ rounds) index text).0 ≡ panic
  unfolding watch
  watch_panics round rounds index text h = ground arith

  watch_fails :
      (round : Round ResourceId) (rounds : List (Round ResourceId))
      (index : ResourceIndex ResourceId) (text : Option String) (diff : IndexUpdate ResourceId)
      (cause : ArklibError)
      → (update_all round.disk index).0 ≡ returned (ok diff)
      → (store round.printer file.unix_epoch (update_all round.disk index).1).0 ≡ err cause
      → (watch shell disk file printer locks (round ∷ rounds) index text).0 ≡ panic
  unfolding watch
  watch_fails round rounds index text diff cause h fails = ground arith

  watch_goes :
      (round : Round ResourceId) (rounds : List (Round ResourceId))
      (index : ResourceIndex ResourceId) (text : Option String) (diff : IndexUpdate ResourceId)
      → (update_all round.disk index).0 ≡ returned (ok diff)
      → (store round.printer file.unix_epoch (update_all round.disk index).1).0 ≡ ok tt
      → (t : Option String) × (watch shell disk file printer locks (round ∷ rounds) index text
          ≡ watch shell disk file printer locks rounds (update_all round.disk index).1 t)
  unfolding watch
  watch_goes round rounds index text diff h stores = (
    left_text shell disk file printer locks text
        (store round.printer file.unix_epoch (update_all round.disk index).1).1,
    ground arith,
  )

  -- The loop of monitor_index is still running after some rounds exactly if in each of them no
  -- file that the index knows had a time before the recorded one and the store succeeded.
  pub watch_unfinished_iff :
      (rounds : List (Round ResourceId)) (index : ResourceIndex ResourceId) (text : Option String)
      → ((watch shell disk file printer locks rounds index text).0 ≡ returned (err unfinished))
        ↔ AllRun rounds index
  unfolding watch
  watch_unfinished_iff [] index text = (λ h. tt, λ h. refl)
  watch_unfinished_iff (round ∷ rounds) index text =
      let x = update_all round.disk index in
      elim (update_all-runs_or round.disk index) [
        | inl panics ↦ (
          λ h. absurd (panic_ne (sym (watch_panics round rounds index text panics) ∙ h)),
          λ h. absurd ((update_all-panic_iff round.disk index).1 h.0 panics),
        )
        | inr (diff, updates) ↦ elim (Result-cases (store round.printer file.unix_epoch x.1).0) [
          | inl (cause, fails) ↦ (
            λ h.
                absurd (
                  panic_ne
                    (sym (watch_fails round rounds index text diff cause updates fails) ∙ h)),
            λ h. absurd (err_ne (sym fails ∙ h.1)),
          )
          | inr (done, stores) ↦
              let (t, goes) = watch_goes round rounds index text diff updates stores in
              let same = ap (λ r. r.0) goes in
              (
                λ h. (
                  (update_all-panic_iff round.disk index).0 (λ p. panic_ne (sym p ∙ updates)),
                  stores,
                  (watch_unfinished_iff rounds x.1 t).0 (sym same ∙ h),
                ),
                λ h. same ∙ (watch_unfinished_iff rounds x.1 t).1 h.2,
              )
        ]
      ]

  -- For a root that can be found, has no index in the registrar and no index file that loads, the
  -- command collisions reports the number of the paths of a fresh build and exactly the ids that
  -- two or more of them have, with their number, where no lock is poisoned.
  pub collisions_run-build :
      (root_dir : Option String) (dir_path root : FilePath)
      (s : Watched shell disk file printer locks) (cause : ArklibError)
      → provide_root shell root_dir ≡ ok dir_path
      → disk.canonicalize dir_path ≡ ok root
      → locks.registrar ≡ false
      → locks.index ≡ false
      → get root s.0 ≡ none
      → load disk file root ≡ returned (err cause)
      → (cs : Map ResourceId ℕ) × ((collisions_run shell disk file printer locks root_dir s).0
          ≡ returned (ok (entries (length (build disk root).path2id) cs)))
        × ((i : ResourceId)
            → get i cs
              ≡ (let n = count_id i (build disk root).path2id in if ltb 1 n then some n else none))
  unfolding collisions_run monitor_index provide_index provide size
  collisions_run-build root_dir dir_path root (registrar, text) cause rooted found free open_index
        new fails =
      (
        (build disk root).collisions,
        ground (arith, get_new root (build disk root) registrar),
        (build-IsConsistent disk root).counted,
      )
