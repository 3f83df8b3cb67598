-- ===== src/Atomic/AppId.antt =====
-- fs-atomic-versions/src/app_id.rs: the id of the application, in a file.
use ark_rust.Base.{
  string_eq, String, Option, none, some, ◌≡◌, if◌then◌else◌, arith, Option-cases, inl, inr,
}
use ark_rust.Error.{ArklibError, ok, err, returned}
use ark_rust.Exec.{Exec, ◌>>=◌, ◌>>◌, pure, fail, raise}
use ark_rust.Map
use ark_rust.Map.{get, insert, get_new}
use ark_rust.Atomic.World.{World, Host, read_file, write_file, remove_plain}

module _ (host : Host) where
  abbrev pub Step : Type 0 → Type 0
  Step = Exec World ArklibError

  -- The lock of APP_ID_PATH.
  abbrev locked : Step Unit
  locked w =
      if host.poisoned
      then (returned (err (ArklibError.other "Could not lock app id path")), w)
      else (returned (ok tt), w)

  abbrev the_path : Step (Option String)
  the_path w = (returned (ok w.app_id_path), w)

  abbrev set_path : String → Step Unit
  set_path path w = (returned (ok tt), record w { app_id_path = some path })

  unfoldable pub generate : String → Step String
  generate app_id_path = do
    raise ArklibError.io (write_file host app_id_path host.new_v4)
    pure host.new_v4

  abbrev read_at : Option String → Step String
  read_at none = fail (ArklibError.other "Device id path is not set")
  read_at (some path) = raise ArklibError.io (read_file host path)

  unfoldable pub read : Step String
  read = do locked; path ← the_path; read_at path

  -- The id in the file, or a new one.
  unfoldable pub read_or_generate : String → Step String
  unfolding generate
  read_or_generate app_id_path w = elim (Map.get app_id_path w.files) [
    | some _ ↦ raise ArklibError.io (read_file host app_id_path) w
    | none ↦ generate app_id_path w
  ]

  unfoldable pub load : String → Step String
  unfolding read_or_generate
  load root_path = do
    id ← read_or_generate (host.join root_path "app_id")
    locked
    set_path (host.join root_path "app_id")
    pure id

  abbrev remove_at : Option String → Step Unit
  remove_at none = pure tt
  remove_at (some path) = raise ArklibError.io (remove_plain host path)

  unfoldable pub remove : Step Unit
  remove = do locked; path ← the_path; remove_at path

  -- After a load of the application id that succeeds, read and another load of the same root give
  -- the same id and change nothing, where the operating system can read the file.
  read-load :
      (root id : String) (w w' : World)
      → load root w ≡ (returned (ok id), w')
      → host.read_to_string (host.join root "app_id") ≡ none
      → (read w' ≡ (returned (ok id), w')) × (load root w' ≡ (returned (ok id), w'))
  unfolding read load generate
  read-load root id w w' h readable = elim (Option-cases (get (host.join root "app_id") w.files)) [
    | inl new ↦ ground (arith, get_new (host.join root "app_id") host.new_v4 w.files)
    | inr (content, there) ↦ ground arith
  ]
