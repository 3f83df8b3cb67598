-- ===== src/Atomic/Create.antt =====
-- fs-atomic-versions/src/atomic/file.rs: `AtomicFile::new`.
use Prim.Native.String.{◌++◌ as push_str}
use ark_rust.Base.{string_eq, ℕ, ◌^◌, ◌<◌, String, Option, none, some, ◌≡◌, refl, arith}
use ark_rust.Error.{ArklibError, invalid_input, ok, returned, panic}
use ark_rust.Exec.{continue-eq-ok, ◌>>=◌, ◌>>◌, pure, fail, raise, lift}
use ark_rust.Map.{Map, get}
use ark_rust.Atomic.File.{Folder, AtomicFile, parse_version, name, path}
use ark_rust.Atomic.Names.{parse-name, parse-path}
use ark_rust.Atomic.World.{World, Host, create_dir_all}
use ark_rust.Atomic.AppId.{Step, read}

module _ (host : Host) where
  -- `directory.file_name()`, which has to be Unicode.
  abbrev pub named : Option (Option String) → Step host String
  named none = fail (
      ArklibError.io
        (record { kind = invalid_input; message = "`path` must specify a directory name" }))
  named (some none) = lift panic
  named (some (some filename)) = pure filename

  -- The file, once its folder is there.
  abbrev pub prefixed : String → String → Step host AtomicFile
  prefixed directory app_id = do
    filename ← named (host.file_name directory)
    pure (record {
      directory = directory;
      prefix = push_str (push_str (push_str filename "_") app_id) ".";
    })

  unfoldable pub new : String → Step host AtomicFile
  new directory = do
    app_id ← read host
    raise ArklibError.io (create_dir_all host directory)
    prefixed directory app_id

  prefixed_dotted :
      (directory app_id : String) (o : Option (Option String)) (file : AtomicFile) (w w' : World)
      → host.file_name directory ≡ o
      → prefixed directory app_id w ≡ (returned (ok file), w')
      → (stem : String) × (file.prefix ≡ push_str stem ".") × (file.directory ≡ directory)
  prefixed_dotted directory app_id none file w w' e h = absurd (ground arith)
  prefixed_dotted directory app_id (some none) file w w' e h = absurd (ground arith)
  prefixed_dotted directory app_id (some (some filename)) file w w' e h =
      (push_str (push_str filename "_") app_id, ground arith, ground arith)

  pub dotted :
      (directory : String) (file : AtomicFile) (w w' : World)
      → new directory w ≡ (returned (ok file), w')
      → (stem : String) × (file.prefix ≡ push_str stem ".") × (file.directory ≡ directory)
  unfolding new
  dotted directory file w w' h =
      let (app_id, w₁, reads, h₁) =
        continue-eq-ok (read host w)
          (λ app_id.
            raise ArklibError.io (create_dir_all host directory) >> prefixed directory app_id)
          h in
      let (made, w₂, creates, h₂) =
        continue-eq-ok (raise ArklibError.io (create_dir_all host directory) w₁)
          (λ u. prefixed directory app_id) h₁ in
      prefixed_dotted directory app_id (host.file_name directory) file w₂ w' refl h₂

  -- The name and the path of each version below 2^64 of a file that new has made are read as this
  -- version, and the file has the folder it was made for.
  pub parse-new :
      (directory : String) (file : AtomicFile) (w w' : World) (n : ℕ)
      → new directory w ≡ (returned (ok file), w')
      → n < 2 ^ 64
      → (parse_version (some (name file n)) ≡ some n)
        × (parse_version (some (path file n)) ≡ some n)
        × (file.directory ≡ directory)
  parse-new directory file w w' n h small =
      let (stem, ends, at) = dotted directory file w w' h in
      (parse-name file stem n ends small, parse-path file stem n ends small, at)

  -- A file that was made is made again, whatever the folders then hold.
  pub new_again :
      (storage : String) (file : AtomicFile) (w v : World) (folder : Folder) (m : Map String Folder)
      → new storage w ≡ (returned (ok file), v)
      → get storage m ≡ some folder
      → new storage (record v { folders = m }) ≡ (returned (ok file), record v { folders = m })
  unfolding new read
  new_again storage file w v folder m h there = ground arith
