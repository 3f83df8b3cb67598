-- ===== src/Cli/Backup.antt =====
-- ark-cli/src/commands/backup.rs: the command `backup`.
use Prim.Native.String.{◌++◌ as push_str}
use ark_rust.Base.{
  string_eq, ℕ, suc, ◌-◌, ◌/◌, String, Option, none, some, List, [], ◌∷◌, ltb, if◌then◌else◌,
}
use ark_rust.Base.Decimal.{display}
use ark_rust.Error.{IoError, Outcome, ok, err, returned, panic}
use ark_rust.Exec.{Exec, ◌>>=◌, ◌>>◌, pure, lift}
use ark_rust.Map
use ark_rust.Map.{Map}
use ark_rust.Cli.Fault.{AppError}
use ark_rust.Cli.Roots.{Shell, storages_exists, discover_roots}

-- The folders and the plain files, and the copies of folders: the target and what was copied there.
pub record Saved : Type 0 where
  pub dirs : Map String Unit
  pub files : Map String String
  pub copies : Map String String

-- What lies outside: the clock in nanoseconds and its `UNIX_EPOCH`, the home directory, which calls
-- fail, and `dir::copy` of the crate `fs_extra`, which gives the copies after it, or an error.
pub record Keeper : Type 0 where
  pub now : ℕ
  pub unix_epoch : ℕ
  pub home_dir : Option String
  pub create_dir_all : String → Option IoError
  pub create : String → Option IoError
  pub writeln : String → Option IoError
  pub copy : String → String → Map String String → Option (Map String String)

-- How the command ends where it has no error: after its last line or by `exit(0)`.
pub data Ending : Type 0 where
  finished exited : Ending

module _ (shell : Shell) (keeper : Keeper) where
  abbrev Step : Type 0 → Type 0
  Step = Exec Saved AppError

  -- `timestamp().as_secs()` of util.rs
  unfoldable pub timestamp : Outcome AppError ℕ
  timestamp =
      if ltb keeper.now keeper.unix_epoch
      then panic
      else returned (ok ((keeper.now - keeper.unix_epoch) / 1_000_000_000))

  abbrev pub home : Option String → Outcome AppError String
  home (some path) = returned (ok path)
  home none = returned (err AppError.home_dir_not_found)

  -- `partition`, where only the first part is used later.
  unfoldable pub valid_roots : List String → List String
  unfolding storages_exists
  valid_roots [] = []
  valid_roots (root ∷ roots) =
      let rest = valid_roots roots in if storages_exists shell root then root ∷ rest else rest

  abbrev pub make_dir : String → Step Unit
  make_dir dir s = elim (keeper.create_dir_all dir) [
    | some _ ↦
        (returned (err (AppError.backup_creation_error "Couldn't create backup directory!")), s)
    | none ↦ (returned (ok tt), record s { dirs = Map.insert dir tt s.dirs })
  ]

  -- The lines of the roots; one that cannot be written is only reported.
  unfoldable pub roots_text : List String → String
  roots_text [] = ""
  roots_text (root ∷ roots) =
      let rest = roots_text roots in
      elim (keeper.writeln root) [ some _ ↦ rest | none ↦ push_str root (push_str "\n" rest) ]

  abbrev pub make_roots : String → List String → Step Unit
  make_roots path valid s = elim (keeper.create path) [
    | some cause ↦ (returned (err (AppError.io_error cause)), s)
    | none ↦ (returned (ok tt), record s { files = Map.insert path (roots_text valid) s.files })
  ]

  -- The storages of each root, by the number of the root; a copy that fails is only reported.
  unfoldable pub copy_each : String → ℕ → List String → Map String String → Map String String
  copy_each backup_dir i [] copies = copies
  copy_each backup_dir i (root ∷ roots) copies =
      elim (keeper.copy (shell.join root ".ark") (shell.join backup_dir (display i)) copies) [
        | none ↦ copy_each backup_dir (suc i) roots copies
        | some after ↦ copy_each backup_dir (suc i) roots after
      ]

  abbrev pub perform : String → List String → Step Ending
  perform backup_dir valid s =
      (returned (ok finished), record s { copies = copy_each backup_dir 0 valid s.copies })

  abbrev pub save_valid : String → List String → Step Ending
  save_valid backup_dir [] = pure exited
  save_valid backup_dir (root ∷ roots) = do
    make_dir backup_dir
    make_roots (shell.join backup_dir "roots") (root ∷ roots)
    perform backup_dir (root ∷ roots)

  abbrev pub save_roots : String → Option String → Step Ending
  save_roots backup_dir roots_cfg s = elim (Map.get backup_dir s.dirs) [
    | some _ ↦ (returned (ok exited), s)
    | none ↦
        ((lift (discover_roots shell roots_cfg)) >>= λ roots.
        save_valid backup_dir (valid_roots roots))
          s
  ]

  unfoldable pub backup_run : Option String → Step Ending
  unfolding timestamp discover_roots valid_roots roots_text copy_each
  backup_run roots_cfg = do
    seconds ← lift timestamp
    home_path ← lift (home keeper.home_dir)
    save_roots (shell.join (shell.join home_path ".ark-backups") (display seconds)) roots_cfg
