-- ===== src/Cli/Restart.antt =====
-- ark-cli/src/main.rs: two runs of the program, the command `append` and then the command `read`.
use ark_rust.Base.{
  Eq, string_eq, ℕ, String, none, some, [], ◌∷◌, ◌++◌, ◌≡◌, refl, ap, ◌∙◌, true, false, arith,
  Option-cases, inl, inr,
}
use ark_rust.Error.{ok, returned}
use ark_rust.Exec.{Exec, Stop, raise, raised, failed}
use ark_rust.Cli.Fault.{AppError}
use ark_rust.Map.{Map, get, insert, get_new, get-insert}
use ark_rust.Atomic.File.{Folder, AtomicFile}
use ark_rust.Atomic.World.{World, Host, made}
use ark_rust.Atomic.AppId
use ark_rust.Atomic.Create.{new}
use ark_rust.Json.Value.{Value}
use ark_rust.Atomic.Modify.{buffer}
use ark_rust.Atomic.ModifyJson.{Serde}
use ark_rust.Atomic.Settle.{IsReady}
use ark_rust.Cli.Utils.{raw}
use ark_rust.Cli.Storage.{Terminal, exists}
use ark_rust.Cli.Rows.{IsRow, AreRows, text_of, answer}
use ark_rust.Cli.Kept.{alone, put}
use ark_rust.Cli.Roots.{Shell}
use ark_rust.Cli.FileCommands.{Append, Read, append_run, read_run}
use ark_rust.Cli.Session.{Names, read_run_at, append_run_kept}
use ark_rust.Cli.Program.{Home, success, start, exit_of, main}

-- Another folder is there beside one that is made.
exists-insert :
    (p q : String) (folder : Folder) (w : World)
    → exists p w ≡ true
    → exists p (record w { folders = insert q folder w.folders }) ≡ true
exists-insert p q folder w there = ground (arith, get-insert q p folder w.folders)

-- A process that starts: APP_ID_PATH is not set.
abbrev pub restarted : World → World
restarted w = record w { app_id_path = none }

module _ (host : Host) where
  new-made :
      (path : String) (file : AtomicFile) (w v : World)
      → new host path w ≡ (returned (ok file), v)
      → v ≡ record w { folders = made host path w.folders }
  unfolding new AppId.read
  new-made path file w v h = ground arith

  exists-made :
      (p path : String) (w : World)
      → exists p w ≡ true
      → exists p (record w { folders = made host path w.folders }) ≡ true
  exists-made p path w there = elim (Option-cases (get path w.folders)) [
    | inl new_one ↦ ground (arith, exists-insert p path [] w there)
    | inr (folder, old) ↦ ground arith
  ]

  new-keeps :
      (path p : String) (file : AtomicFile) (w v : World)
      → new host path w ≡ (returned (ok file), v)
      → (v.files ≡ w.files)
        × (v.app_id_path ≡ w.app_id_path)
        × (exists p w ≡ true → exists p v ≡ true)
  new-keeps path p file w v h =
      let e = new-made path file w v h in
      (
        ap (λ (u : World). u.files) e,
        ap (λ (u : World). u.app_id_path) e,
        λ there. ap (exists p) e ∙ exists-made p path w there,
      )

  module _ (home : Home) where
    -- The folder that a start has provided, and the file that it has read or written.
    start-exists :
        (app x : String) (w w₁ : World)
        → start host home w ≡ (returned (ok app), w₁)
        → home.home_dir ≡ some x
        → exists (host.join x ".ark") w₁ ≡ true
    unfolding start AppId.load AppId.read_or_generate AppId.generate
    start-exists app x w w₁ h at_home =
        let ark_dir = host.join x ".ark" in
        elim (Option-cases (get (host.join ark_dir "app_id") w.files)) [
          | inl new_app ↦ ground (
            arith,
            get_new ark_dir [] w.folders,
            get-insert (host.join ark_dir "app_id") ark_dir host.new_v4 w.files,
          )
          | inr (text, old) ↦ ground (arith, get_new ark_dir [] w.folders)
        ]

    start-kept :
        (app x : String) (w w₁ : World)
        → start host home w ≡ (returned (ok app), w₁)
        → home.home_dir ≡ some x
        → get (host.join (host.join x ".ark") "app_id") w₁.files ≡ some app
    unfolding start AppId.load AppId.read_or_generate AppId.generate
    start-kept app x w w₁ h at_home =
        ground (arith, get_new (host.join (host.join x ".ark") "app_id") host.new_v4 w.files)

    -- Without a fault a start succeeds.
    start_runs :
        (x : String) (w : World)
        → home.home_dir ≡ some x
        → home.create_dir ≡ none
        → host.poisoned ≡ false
        → ((p : String) → host.read_to_string p ≡ none)
        → ((p : String) → host.write p ≡ none)
        → (app : String) × (start host home w ≡ (returned (ok app), (start host home w).1))
    unfolding start AppId.load AppId.read_or_generate AppId.generate
    start_runs x w at_home creates unlocked readable writable =
        let app_id = host.join (host.join x ".ark") "app_id" in
        elim (Option-cases (get app_id w.files)) [
          | inl new_app ↦ (host.new_v4, ground (arith, writable app_id))
          | inr (app, old) ↦ (app, ground (arith, readable app_id))
        ]

    start_again :
        (app : String) (w w₁ v : World)
        → start host home w ≡ (returned (ok app), w₁)
        → ((path : String) → host.read_to_string path ≡ none)
        → v.files ≡ w₁.files
        → v.app_id_path ≡ w₁.app_id_path
        → ((p : String) → exists p w₁ ≡ true → exists p v ≡ true)
        → start host home (restarted v) ≡ (returned (ok app), v)
    unfolding start AppId.load AppId.read_or_generate AppId.generate
    start_again app w w₁ v h readable files path there = elim (Option-cases home.home_dir) [
      | inl homeless ↦ absurd (ground arith)
      | inr (x, at_home) ↦
          let made_there = start-exists app x w w₁ h at_home in
          let kept = start-kept app x w w₁ h at_home in
          ground (
            arith,
            made_there,
            kept,
            there (host.join x ".ark") made_there,
            readable (host.join (host.join x ".ark") "app_id"),
          )
    ]

    main_is :
        {A : Type 0} (run : Exec World (Stop AppError) A) (app : String) (w w₁ : World)
        → start host home w ≡ (returned (ok app), w₁)
        → main host home run w ≡ exit_of host home (run w₁)
    unfolding main
    main_is run app w w₁ h = rw (h, main) refl

module _ {ResourceId : Type 0} ⦃e : Eq ResourceId⦄ {N : Type 0} (shell : Shell) (host : Host)
    (home : Home) (terminal : Terminal ResourceId) (path : String) (serde : Serde (Value N))
    (n : ℕ) where
  -- Where the home directory is known, the folder .ark can be made, APP_ID_PATH can be locked,
  -- plain files can be read and written, no process interferes, and the file of a storage of
  -- lines is, after the start of the program, ready for another version and has the text of some
  -- pairs, a run of the program with the command append of a raw value ends without an error, and
  -- a later run with the command read gives for each id the first of its values in these pairs
  -- with the new one at their end, or the error that there is none, where the pairs and the new
  -- one can be printed and read back and both commands name the storage and an id.
  pub main_read-main_append :
      (self : Append) (atomic_file : AtomicFile) (x : String) (w v : World) (folder : Folder)
      (r : IsReady (host.os path) atomic_file folder) (rows : Map ResourceId String)
      (id : ResourceId)
      → home.home_dir ≡ some x
      → home.create_dir ≡ none
      → host.poisoned ≡ false
      → ((p : String) → host.read_to_string p ≡ none)
      → ((p : String) → host.write p ≡ none)
      → Names shell host terminal path self.root_dir self.storage self.id self.kind id
      → self.format ≡ some raw
      → exists path (start host home w).1 ≡ true
      → new host path (start host home w).1 ≡ (returned (ok atomic_file), v)
      → get path v.folders ≡ some folder
      → buffer r.content ≡ text_of host terminal rows
      → AreRows host terminal rows
      → IsRow host terminal id self.content
      → (w' : World) × (main host home (append_run shell host terminal serde (alone n) self) w
          ≡ (returned (ok (success, some tt)), w'))
        × ((later : Read) (i : ResourceId)
            → Names shell host terminal path later.root_dir later.storage later.id later.kind i
            → (w'' : World) × (main host home
                  (raise failed (read_run shell host terminal later))
                  (restarted w')
                ≡ exit_of host home (
                    raised failed
                      (answer host terminal i (get i (rows ++ (id, self.content) ∷ [])), w''))))
  main_read-main_append self atomic_file x w v folder r rows id at_home creates unlocked readable
        writable names is_raw there makes found has all row =
      let (app, starts) = start_runs host home x w at_home creates unlocked readable writable in
      let w₁ = (start host home w).1 in
      let (folder', done, still, reads) =
        append_run_kept shell host terminal path serde n self atomic_file w₁ v folder r rows id
          names is_raw there makes found has all row in
      let w' = put host terminal path [] v folder' in
      let again : start host home (restarted w') ≡ (returned (ok app), w') =
        start_again host home app w w₁ w' starts readable
          (new-keeps host path path atomic_file w₁ v makes).0
          (new-keeps host path path atomic_file w₁ v makes).1
          (λ p there_p.
            exists-insert p path folder' v
              ((new-keeps host path p atomic_file w₁ v makes).2 there_p)) in
      (
        w',
        main_is host home (append_run shell host terminal serde (alone n) self) app w w₁ starts
            ∙ ap (exit_of host home) done,
        λ later i later_names.
            let (w'', shows) = reads i in
            (
              w'',
              main_is host home (raise failed (read_run shell host terminal later)) app
                    (restarted w') w' again
                  ∙ ap (λ o. exit_of host home (raised failed o))
                      (read_run_at shell host terminal path later w' i later_names still ∙ shows),
            ),
      )
