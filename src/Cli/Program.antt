-- ===== src/Cli/Program.antt =====
-- ark-cli/src/main.rs: `main`, around the command that it runs.
use ark_rust.Base.{string_eq, String, Option, none, some, [], if◌then◌else◌}
use ark_rust.Error.{ArklibError, IoError, Outcome, ok, err, returned, panic}
use ark_rust.Exec.{Exec, ◌>>=◌, ◌>>◌, Stop, failed, unfinished, raise, lift}
use ark_rust.Map
use ark_rust.Atomic.World.{World, Host}
use ark_rust.Atomic.AppId
use ark_rust.Cli.Fault.{AppError}
use ark_rust.Cli.Storage.{exists}

-- What lies outside: the home directory, a fault of `create_dir`, and the texts of errors.
pub record Home : Type 0 where
  pub home_dir : Option String
  pub create_dir : Option IoError
  pub io_text : IoError → String
  pub arklib_text : ArklibError → String

-- How the program ends: at the end of `main`, or by `exit(1)` after the error of the command.
pub data Exit : Type 0 where
  success failure : Exit

module _ (host : Host) (home : Home) where
  abbrev pub home_of : Option String → Outcome AppError String
  home_of (some path) = returned (ok path)
  home_of none = returned (err AppError.home_dir_not_found)

  abbrev pub created : String → Option IoError → Exec World AppError Unit
  created ark_dir (some cause) w =
      (returned (err (AppError.ark_directory_creation_error (home.io_text cause))), w)
  created ark_dir none w =
      (returned (ok tt), record w { folders = Map.insert ark_dir [] w.folders })

  abbrev pub provide_ark_dir : String → Exec World AppError Unit
  provide_ark_dir ark_dir w =
      if exists ark_dir w then (returned (ok tt), w) else created ark_dir home.create_dir w

  -- What `main` does before the command.
  unfoldable pub start : Exec World AppError String
  unfolding AppId.load
  start = do
    app_id_dir ← lift (home_of home.home_dir)
    provide_ark_dir (host.join app_id_dir ".ark")
    raise (λ cause. AppError.app_id_load_error (home.arklib_text cause))
        (AppId.load host (host.join app_id_dir ".ark"))

  -- The error of the command is printed.
  abbrev pub exit_of :
      {A : Type 0}
      → Outcome (Stop AppError) A × World
      → Outcome (Stop AppError) (Exit × Option A) × World
  exit_of (returned (ok a), w) = (returned (ok (success, some a)), w)
  exit_of (returned (err (failed cause)), w) = (returned (ok (failure, none)), w)
  exit_of (returned (err unfinished), w) = (returned (err unfinished), w)
  exit_of (panic, w) = (panic, w)

  -- A run of the program with one of its commands; what the command prints stays with the exit.
  unfoldable pub main :
      {A : Type 0} → Exec World (Stop AppError) A → Exec World (Stop AppError) (Exit × Option A)
  main run = do raise failed start; (λ w. exit_of (run w))
