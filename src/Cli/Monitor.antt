-- ===== src/Cli/Monitor.antt =====
-- ark-cli/src/util.rs: `monitor_index`, and the commands `monitor` and `collisions`.
use ark_rust.Base.{Eq, string_eq, ℕ, String, Bool, Option, none, some, List, [], ◌∷◌, if◌then◌else◌}
use ark_rust.Error.{ArklibError, Outcome, ok, err, returned, panic}
use ark_rust.Exec.{Stop, failed, unfinished}
use ark_rust.Map
use ark_rust.Map.{Map}
use ark_rust.Index.State.{FilePath, ResourceIndex, size}
use ark_rust.Index.Scan.{Disk}
use ark_rust.Index.Update.{update_all}
use ark_rust.Index.Load.{IndexFile}
use ark_rust.Index.Store.{Printer, store}
use ark_rust.Cli.Fault.{AppError}
use ark_rust.Cli.Roots.{Shell, provide_root}
use ark_rust.Cli.Registrar.{Registrar, provide_index}

-- What is outside in one round of the loop: the disk, and the printing into the index file.
pub record Round (ResourceId : Type 0) : Type 0 where
  pub disk : Disk ResourceId
  pub printer : Printer ResourceId

-- What is printed: the failure to provide an index, or its size and its collisions.
pub data Report (ResourceId : Type 0) : Type 0 where
  failure : ArklibError → Report ResourceId
  entries : ℕ → Map ResourceId ℕ → Report ResourceId

-- Whether the locks of the registrar and of the index are poisoned.
pub record Locks : Type 0 where
  pub registrar : Bool
  pub index : Bool

module _ {ResourceId : Type 0} ⦃e : Eq ResourceId⦄ (shell : Shell) (disk : Disk ResourceId)
    (file : IndexFile ResourceId) (printer : Printer ResourceId) (locks : Locks) where
  -- The text of the index file after a store.
  abbrev pub left_text : Option String → Option String → Option String
  left_text old none = old
  left_text old (some text) = some text

  -- The loop, with the index and the text of its file; it has no end of its own.
  unfoldable pub watch :
      List (Round ResourceId)
      → ResourceIndex ResourceId
      → Option String
      → Outcome (Stop AppError) (Report ResourceId) × (ResourceIndex ResourceId × Option String)
  watch [] index text = (returned (err unfinished), (index, text))
  watch (round ∷ rounds) index text =
      let (update, updated) = update_all round.disk index in
      elim update [
        | panic ↦ (panic, (updated, text))
        | returned (err _) ↦ watch rounds updated text
        | returned (ok diff) ↦
            let (result, written) = store round.printer file.unix_epoch updated in
            elim result [
              | err _ ↦ (panic, (updated, left_text text written))
              | ok _ ↦ watch rounds updated (left_text text written)
            ]
      ]

  -- The registrar, and the text of the index file that the loop has left.
  abbrev pub Watched : Type 0
  Watched = Registrar disk file printer × Option String

  abbrev pub unlock : String → AppError
  unlock what = AppError.storage_creation_error what

  -- The index stays in the registrar, where the loop changes it.
  abbrev pub left_index :
      FilePath
      → Registrar disk file printer
      → Outcome (Stop AppError) (Report ResourceId) × (ResourceIndex ResourceId × Option String)
      → Outcome (Stop AppError) (Report ResourceId) × Watched
  left_index root registrar (result, (index, text)) =
      (result, (Map.insert root index registrar, text))

  abbrev pub watched :
      List (Round ResourceId)
      → Option ℕ
      → FilePath
      → ResourceIndex ResourceId
      → Registrar disk file printer
      → Option String
      → Outcome (Stop AppError) (Report ResourceId) × Watched
  watched rounds (some millis) root index registrar text =
      if locks.index
      then (returned (err (failed (unlock "Failed to write lock index"))), (registrar, text))
      else left_index root registrar (watch rounds index text)
  watched rounds none root index registrar text =
      if locks.index
      then (returned (err (failed (unlock "Failed to read lock index"))), (registrar, text))
      else (returned (ok (entries (size index) index.collisions)), (registrar, text))

  -- The index that was provided stands in the registrar.
  abbrev pub watch_provided :
      List (Round ResourceId)
      → Option ℕ
      → Outcome ArklibError FilePath × Registrar disk file printer
      → Option String
      → Outcome (Stop AppError) (Report ResourceId) × Watched
  watch_provided rounds interval (panic, registrar) text = (panic, (registrar, text))
  watch_provided rounds interval (returned (err cause), registrar) text =
      (returned (ok (failure cause)), (registrar, text))
  watch_provided rounds interval (returned (ok root), registrar) text =
      elim (Map.get root registrar) [
        | none ↦ (panic, (registrar, text))
        | some index ↦ watched rounds interval root index registrar text
      ]

  -- The rounds are those of the loop; the interval only sets how long it sleeps.
  unfoldable pub monitor_index :
      List (Round ResourceId)
      → Option String
      → Option ℕ
      → Watched
      → Outcome (Stop AppError) (Report ResourceId) × Watched
  unfolding provide_index watch size
  monitor_index rounds root_dir interval (registrar, text) = elim (provide_root shell root_dir) [
    | err cause ↦ (returned (err (failed cause)), (registrar, text))
    | ok dir_path ↦
        watch_provided rounds interval
          (provide_index disk file printer locks.registrar dir_path registrar) text
  ]

  -- ark-cli/src/commands/collisions.rs
  unfoldable pub collisions_run :
      Option String → Watched → Outcome (Stop AppError) (Report ResourceId) × Watched
  unfolding monitor_index
  collisions_run root_dir s = monitor_index [] root_dir none s

  -- ark-cli/src/commands/monitor.rs, whose interval is unwrapped.
  unfoldable pub monitor_run :
      List (Round ResourceId)
      → Option String
      → Option ℕ
      → Watched
      → Outcome (Stop AppError) (Report ResourceId) × Watched
  unfolding monitor_index
  monitor_run rounds root_dir none s = (panic, s)
  monitor_run rounds root_dir (some millis) s = monitor_index rounds root_dir (some millis) s
