-- ===== src/Cli/WatchTests.antt =====
-- A folder of two files with one hash, watched for two rounds and looked at for collisions.
use ark_rust.Base.{
  nat_eq, string_eq, ℕ, String, ◌≡◌, ◌↔◌, refl, true, false, none, some, [], ◌∷◌, leb, ltb, length,
  if◌then◌else◌,
}
use ark_rust.Error.{other_kind, IoError, ArklibError, ok, err, returned}
use ark_rust.Exec.{unfinished}
use ark_rust.Map.{Map, get}
use ark_rust.Index.State.{ResourceIndex}
use ark_rust.Index.Scan.{Disk, DirEntry, build}
use ark_rust.Index.Tracking.{count_id}
use ark_rust.Index.Load.{IndexFile, load}
use ark_rust.Index.Store.{Printer}
use ark_rust.Base.Decimal.{display}
use ark_rust.Cli.Roots.{Shell, provide_root}
use ark_rust.Cli.Monitor.{Round, Locks, watch, entries, collisions_run}
use ark_rust.Cli.Watching.{AllRun, watch_unfinished_iff, collisions_run-build}

abbrev shell : Shell
shell = record {
  ark_config = "c";
  current_dir = ok "r";
  open_lines = λ p. ok [];
  canonicalize = λ p. ok p;
  ancestors = λ p. p ∷ [];
  metadata_is_dir = λ p. ok true;
  is_folder = λ p. false;
  to_lowercase = λ p. p;
  join = λ a b. b;
}

abbrev entry_at : String → ℕ → DirEntry
entry_at path time = record {
  path = path;
  file_name = some "c";
  is_dir = false;
  metadata = ok (record { is_dir = false; len = 3; modified = ok time });
}

abbrev disk_at : ℕ → Disk ℕ
disk_at time = record {
  is_there = λ p. true;
  canonicalize = λ p. ok p;
  metadata = λ p. ok (record { is_dir = false; len = 3; modified = ok time });
  from_path = λ p. ok 7;
  walk = λ root test. some (entry_at "r/a" time) ∷ some (entry_at "r/b" time) ∷ [];
}

abbrev missing : IoError
missing = record { kind = other_kind; message = "No such file" }

abbrev file : IndexFile ℕ
file = record {
  lines = err missing;
  unix_epoch = 0;
  last_time = 9_000_000_000;
  from_str = λ t. none;
  join = λ root p. p;
}

abbrev printer : Printer ℕ
printer = record {
  le_id = leb;
  to_string = display;
  diff_paths = λ path root. some path;
  create_dir_all = none;
  create = none;
  writeln = λ line. none;
}

abbrev locks : Locks
locks = record { registrar = false; index = false }

abbrev round_at : ℕ → Round ℕ
round_at time = record { disk = disk_at time; printer = printer }

abbrev index_five : ResourceIndex ℕ
index_five = build (disk_at 5) "r"

watch_unfinished_iff_example :
    ((watch shell (disk_at 5) file printer locks (round_at 5 ∷ round_at 6 ∷ []) index_five none).0
      ≡ returned (err unfinished))
    ↔ AllRun shell (disk_at 5) file printer locks (round_at 5 ∷ round_at 6 ∷ []) index_five
watch_unfinished_iff_example =
    watch_unfinished_iff shell (disk_at 5) file printer locks (round_at 5 ∷ round_at 6 ∷ [])
      index_five none

collisions_run-build_example :
    (cs : Map ℕ ℕ) × ((collisions_run shell (disk_at 5) file printer locks none ([], none)).0
      ≡ returned (ok (entries (length index_five.path2id) cs)))
    × ((i : ℕ)
        → get i cs ≡ (let n = count_id i index_five.path2id in if ltb 1 n then some n else none))
unfolding provide_root load get
collisions_run-build_example =
    collisions_run-build shell (disk_at 5) file printer locks none "r" "r" ([], none)
      (ArklibError.io missing) refl refl refl refl refl refl
