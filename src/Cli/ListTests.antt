-- ===== src/Cli/ListTests.antt =====
-- A list command with a filter and without the tags, and the theorem on it.
use ark_rust.Base.{nat_eq, string_eq, ℕ, String, ◌≡◌, refl, true, false, none, some, List, [], ◌∷◌}
use ark_rust.Base.Decimal.{display, digits, digit}
use ark_rust.Base.Text.{parse_u64}
use ark_rust.Error.{IoError, already_exists, not_found, ok, err, returned}
use ark_rust.Atomic.World.{World, Host}
use ark_rust.Cli.Storage.{Terminal}
use ark_rust.Cli.Roots.{Shell, provide_root}
use ark_rust.Cli.Order.{
  desc, sorted, sort_by, place_entry, filtered, retain, le_datetime, le_string,
}
use ark_rust.Cli.Entries.{Options, Printing, entry, collect}
use ark_rust.Cli.Columns.{run}
use ark_rust.Cli.Untagged.{run_untagged}

abbrev missing : IoError
missing = record { kind = not_found; message = "No such file" }

abbrev host : Host
host = record {
  os = λ directory. record {
    read_dir = none;
    sync_data = none;
    hard_link = none;
    eexist = record { kind = already_exists; message = "File exists" };
    enoent = missing;
    removable = λ entry. true;
  };
  poisoned = false;
  join = λ a b. b;
  file_name = λ p. some (some p);
  new_v4 = "n";
  read_to_string = λ p. none;
  write = λ p. none;
  left = λ p files. files;
  remove_file = λ p. none;
  create_dir_all = λ p. none;
  enoent = missing;
}

abbrev terminal : Terminal ℕ
terminal = record {
  to_string = display;
  parse = parse_u64;
  read_dir = λ w p. ok [];
  debug_path = λ p. p;
  debug_io = λ cause. cause.message;
  debug_arklib = λ cause. "error";
  error_text = λ cause. cause.message;
}

abbrev shell : Shell
shell = record {
  ark_config = "roots";
  current_dir = ok "r";
  open_lines = λ p. err missing;
  canonicalize = λ p. ok p;
  ancestors = λ p. p ∷ [];
  metadata_is_dir = λ p. err missing;
  is_folder = λ p. false;
  to_lowercase = λ s. s;
  join = λ a b. b;
}

abbrev printing : Printing
printing = record { format = λ t. display t; url_in = λ p. none }

abbrev options : Options
options = record {
  root_dir = none;
  entry_id = true;
  entry_path = true;
  entry_link = false;
  modified = true;
  tags = false;
  scores = false;
  sort = some desc;
  filter = some "a";
}

abbrev world : World
world = record { app_id_path = none; files = []; folders = [] }

abbrev lines_none : List String
lines_none = []

runs :
    run shell host terminal printing
      (λ root.
        some (
          ("r/b", record { modified = 7; id = 5 }) ∷ ("r/c", record { modified = 8; id = 6 }) ∷ []))
      options
      world
    ≡ (returned (ok lines_none), world)
unfolding run provide_root entry collect sorted sort_by place_entry filtered retain le_datetime
    display digits digit le_string
runs = refl

run_untagged_example : lines_none ≡ []
run_untagged_example =
    run_untagged shell host terminal printing
      (λ root.
        some (
          ("r/b", record { modified = 7; id = 5 }) ∷ ("r/c", record { modified = 8; id = 6 }) ∷ []))
      options "a" lines_none world world refl refl runs
