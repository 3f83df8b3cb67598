-- ===== src/Cli/Tests.antt =====
-- A file storage of one line, and the theorems on it.
use Prim.Native.String.{◌++◌ as push_str}
use ark_rust.Base.{
  nat_eq, string_eq, String-discrete, ℕ_discrete, ℕ, String, ◌≡◌, refl, true, false, none, some, [],
  ◌∷◌, arith, ite, ◌≟◌,
}
use ark_rust.Base.Decimal.{display, digits, digit}
use ark_rust.Base.Text.{split, prepend, parse_u64, parse_digits, lines, ended, strip_cr}
use ark_rust.Error.{invalid_data, already_exists, other_kind, ok, err, returned}
use ark_rust.Map.{Map, get, insert}
use ark_rust.Json.Value.{Value}
use ark_rust.Atomic.File.{
  Folder, ReadOnlyFile, AtomicFile, Os, parse_version, after_last, latest_version,
  prune_old_versions, compare_and_swap, load, has_name, fold_entries, keep_version, add_entry,
  find_prefix,
}
use ark_rust.Atomic.Modify.{open_version, content_at}
use ark_rust.Atomic.World.{World, Host}
use ark_rust.Atomic.AppId
use ark_rust.Atomic.Create.{new}
use ark_rust.Atomic.ModifyJson.{Serde}
use ark_rust.Atomic.Settle.{IsReady}
use ark_rust.Cli.Utils.{raw}
use ark_rust.Cli.Storage.{Terminal}
use ark_rust.Cli.Values
use ark_rust.Cli.Values.{append, read, read_lines}
use ark_rust.Cli.Rows.{IsRow, answer, read_lines-text_of}
use ark_rust.Cli.Roots.{Shell, translate_storage}
use ark_rust.Cli.FileCommands.{Append, Read, append_run, read_run}
use ark_rust.Cli.Session.{Names}
use ark_rust.Exec.{raise, raised, failed}
use ark_rust.Cli.Program.{Home, success, start, exit_of, main}
use ark_rust.Cli.Restart.{restarted, main_read-main_append}
use ark_rust.Cli.Kept.{alone, lined, read-insert}

running : Unit {0}
unfolding parse_version parse_u64 parse_digits after_last latest_version prune_old_versions
    compare_and_swap load has_name fold_entries keep_version add_entry find_prefix split prepend
    display digits digit String-discrete ℕ_discrete content_at open_version new AppId.read get
    insert lines ended strip_cr read_lines
running = tt

abbrev os : Os
os = record {
  read_dir = none;
  sync_data = none;
  hard_link = none;
  eexist = record { kind = already_exists; message = "File exists" };
  enoent = record { kind = other_kind; message = "No such file" };
  removable = λ entry. true;
}

abbrev host : Host
host = record {
  os = λ directory. os;
  poisoned = false;
  join = λ a b. push_str (push_str a "/") b;
  file_name = λ p. some (some "tags");
  new_v4 = "n";
  read_to_string = λ p. none;
  write = λ p. none;
  left = λ p files. files;
  remove_file = λ p. none;
  create_dir_all = λ p. none;
  enoent = record { kind = other_kind; message = "No such file" };
}

abbrev terminal : Terminal ℕ
terminal = record {
  to_string = display;
  parse = parse_u64;
  read_dir = λ w p. ok [];
  debug_path = λ p. p;
  debug_io = λ cause. cause.message;
  debug_arklib = λ cause. "error";
  error_text = λ cause. cause.message;
}

abbrev values : Serde (Value ℕ)
values = record {
  from_reader = λ t. err (record { kind = invalid_data; message = "expected value" });
  to_writer = λ val. ok "null";
}

abbrev folder_tags : Folder
folder_tags =
    (record { file_name = some "tags_m.1"; path = "r/tags/tags_m.1"; content = "5:x\n" }) ∷ []

abbrev world : World
world = record {
  app_id_path = some "d/app_id";
  files = ("d/app_id", "m") ∷ [];
  folders = ("r/tags", folder_tags) ∷ [];
}

abbrev file_tags : AtomicFile
file_tags = record { directory = "r/tags"; prefix = "tags_m." }

makes : new host "r/tags" world ≡ (returned (ok file_tags), world)
unfolding running
makes = refl

abbrev version_one : ReadOnlyFile
version_one = record { version = 1; path = "r/tags/tags_m.1" }

ready : IsReady os file_tags folder_tags
unfolding running
ready = record {
  latest = version_one;
  content = some "5:x\n";
  stem = "tags_m";
  placed = (λ w h. h, tt);
  readable = refl;
  syncs = refl;
  links = refl;
  free = refl;
  under = (λ w h. ground arith, tt);
  dotted = refl;
  small = omega arith;
  loads = refl;
  opens = refl;
}

abbrev rows_tags : Map ℕ String
rows_tags = (5, "x") ∷ []

five-IsRow : IsRow host terminal 5 "x"
unfolding running
five-IsRow = record {
  reads = refl;
  id_word = (refl, tt);
  id_line_10 = (refl, tt);
  id_line_13 = (refl, tt);
  value_word = (refl, tt);
  value_line_10 = (refl, tt);
  value_line_13 = (refl, tt);
}

six-IsRow : IsRow host terminal 6 "y"
unfolding running
six-IsRow = record {
  reads = refl;
  id_word = (refl, tt);
  id_line_10 = (refl, tt);
  id_line_13 = (refl, tt);
  value_word = (refl, tt);
  value_line_10 = (refl, tt);
  value_line_13 = (refl, tt);
}

read_lines-text_of_example : read_lines host terminal 5 ("5:x" ∷ []) ≡ returned (ok "x")
unfolding running
read_lines-text_of_example = read_lines-text_of host terminal 5 rows_tags (five-IsRow, tt)

read-insert_example :
    (w' : World) × (Values.insert host terminal values
        (alone 0)
        (lined host terminal "r/tags" [])
        6
        "y"
        raw
        world
      ≡ (returned (ok tt), w'))
    × ((i : ℕ)
        → (w'' : World) × (read host terminal (lined host terminal "r/tags" []) i w'
            ≡ (answer host terminal i (ite (6 ≟ i) (some "y") none), w'')))
unfolding running
read-insert_example =
    read-insert host terminal "r/tags" [] values 0 file_tags world world folder_tags ready 6 "y"
      makes refl six-IsRow

abbrev shell : Shell
shell = record {
  ark_config = "c";
  current_dir = ok "r";
  open_lines = λ p. ok [];
  canonicalize = λ p. ok p;
  ancestors = λ p. p ∷ [];
  metadata_is_dir = λ p. ok true;
  is_folder = λ p. ite (p ≟ "r/tags") true false;
  to_lowercase = λ p. p;
  join = λ a b. push_str (push_str a "/") b;
}

abbrev append_six : Append
append_six = record {
  root_dir = "r";
  storage = "r/tags";
  id = "6";
  content = "y";
  format = some raw;
  kind = none;
}

six-Names : Names shell host terminal "r/tags" "r" "r/tags" "6" none 6
unfolding running translate_storage
six-Names = record { written = none; is_at = refl; is_file = refl; parses = refl }

abbrev home : Home
home = record {
  home_dir = some "h";
  create_dir = none;
  io_text = λ cause. cause.message;
  arklib_text = λ cause. "error";
}

abbrev world_off : World
world_off = record {
  app_id_path = none;
  files = ("h/.ark/app_id", "m") ∷ [];
  folders = ("r/tags", folder_tags) ∷ ("h/.ark", []) ∷ [];
}

abbrev world_on : World
world_on = record world_off { app_id_path = some "h/.ark/app_id" }

main_read-main_append_example :
    (w' : World) × (main host home
        (append_run shell host terminal values (alone 0) append_six)
        world_off
      ≡ (returned (ok (success, some tt)), w'))
    × ((later : Read) (i : ℕ)
        → Names shell host terminal "r/tags" later.root_dir later.storage later.id later.kind i
        → (w'' : World) × (main host home
              (raise failed (read_run shell host terminal later))
              (restarted w')
            ≡ exit_of host home
                (raised failed (answer host terminal i (get i ((5, "x") ∷ (6, "y") ∷ [])), w''))))
unfolding running ready AppId.read_or_generate AppId.load start
main_read-main_append_example =
    main_read-main_append shell host home terminal "r/tags" values 0 append_six file_tags "h"
      world_off world_on folder_tags ready rows_tags 6 refl refl refl (λ p. refl) (λ p. refl)
      six-Names refl refl refl refl refl (five-IsRow, tt) six-IsRow
