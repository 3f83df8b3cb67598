-- ===== src/Properties/Tests.antt =====
-- A folder with one version of the properties of a resource, and the theorems on it.
use Prim.Native.String.{◌++◌ as push_str}
use ark_rust.Base.{
  nat_eq, string_eq, String-discrete, ℕ_discrete, ℕ, String, ◌≡◌, refl, true, false, Option, none,
  some, [], ◌∷◌, arith, ite, ◌≟◌,
}
use ark_rust.Base.Decimal.{display, digits, digit}
use ark_rust.Base.Text.{split, prepend, parse_u64, parse_digits}
use ark_rust.Error.{IoError, invalid_data, already_exists, other_kind, Result, ok, err, returned}
use ark_rust.Map.{get, insert}
use ark_rust.Json.Value.{Value, string, array, nil, cons}
use ark_rust.Json.Value.{value_eq, Value-discrete, Discriminant-discrete, alike, items}
use ark_rust.Json.Merge.{merge, merge_pair}
use ark_rust.Atomic.File.{
  Folder, ReadOnlyFile, AtomicFile, Os, parse_version, after_last, latest_version,
  prune_old_versions, compare_and_swap, load, has_name, fold_entries, keep_version, add_entry,
  find_prefix,
}
use ark_rust.Atomic.Modify.{modify, open_version, content_at}
use ark_rust.Atomic.World.{World, Host}
use ark_rust.Atomic.AppId
use ark_rust.Atomic.Create.{new, parse-new}
use ark_rust.Atomic.ModifyJson.{shaped, Serde, modify_json}
use ark_rust.Atomic.Texts.{as_text, modify_json-modify}
use ark_rust.Atomic.Settle.{IsReady}
use ark_rust.Atomic.Ends.{modify_ends}
use ark_rust.Properties.Store.{store_properties, load_raw_properties}
use ark_rust.Properties.RoundTrip.{load_raw_properties-store}

running : Unit {0}
unfolding parse_version parse_u64 parse_digits after_last latest_version prune_old_versions
    compare_and_swap load has_name fold_entries keep_version add_entry find_prefix split prepend
    display digits digit String-discrete ℕ_discrete content_at open_version new AppId.read get
    insert merge merge_pair alike Value-discrete Discriminant-discrete items
running = tt

abbrev os : Os
os = record {
  read_dir = none;
  sync_data = none;
  hard_link = none;
  eexist = record { kind = already_exists; message = "File exists" };
  enoent = record { kind = other_kind; message = "No such file" };
  removable = λ entry. true;
}

abbrev host : Host
host = record {
  os = λ directory. os;
  poisoned = false;
  join = λ a b. push_str (push_str a "/") b;
  file_name = λ p. some (some "7");
  new_v4 = "n";
  read_to_string = λ p. none;
  write = λ p. none;
  left = λ p files. files;
  remove_file = λ p. none;
  create_dir_all = λ p. none;
  enoent = record { kind = other_kind; message = "No such file" };
}

abbrev folder_one : Folder
folder_one =
    (record { file_name = some "7_m.1"; path = "r/.ark/user/properties/7/7_m.1"; content = "y" })
    ∷ []

abbrev world : World
world = record {
  app_id_path = some "d/app_id";
  files = ("d/app_id", "m") ∷ [];
  folders = ("r/.ark/user/properties/7", folder_one) ∷ ("r/.ark/cache/metadata/7", folder_one) ∷ [];
}

abbrev file_seven : AtomicFile
file_seven = record { directory = "r/.ark/user/properties/7"; prefix = "7_m." }

makes : new host "r/.ark/user/properties/7" world ≡ (returned (ok file_seven), world)
unfolding running
makes = refl

parse-new_example :
    (parse_version (some "7_m.12") ≡ some 12)
    × (parse_version (some "r/.ark/user/properties/7/7_m.12") ≡ some 12)
    × (file_seven.directory ≡ "r/.ark/user/properties/7")
unfolding running
parse-new_example =
    parse-new host "r/.ark/user/properties/7" file_seven world world 12 makes (omega arith)

abbrev malformed : IoError
malformed = record { kind = invalid_data; message = "EOF while parsing a value" }

-- A format of texts where a value is the text itself.
abbrev plain : Option String → Result IoError String
plain none = ok "null"
plain (some s) = ok s

abbrev texts : Serde String
texts = record { from_reader = λ t. ite (t ≟ "") (err malformed) (ok t); to_writer = plain }

abbrev shown : Option String → String
shown none = "null"
shown (some s) = s

modify_json-modify_example :
    modify_json texts os file_seven (λ val. some (some "z")) (λ round f. f) 1 folder_one
    ≡ shaped
        (modify os file_seven (as_text texts (λ val. some "z") shown) (λ round f. f) 1 folder_one)
unfolding running
modify_json-modify_example =
    modify_json-modify texts os file_seven (λ val. some "z") shown (λ round f. f) 1 folder_one
      malformed (λ val. refl) (λ val. ("z", refl)) refl (λ round g h. h) (("y", refl), tt)

abbrev version_one : ReadOnlyFile
version_one = record { version = 1; path = "r/.ark/user/properties/7/7_m.1" }

ready : IsReady os file_seven folder_one
unfolding running
ready = record {
  latest = version_one;
  content = some "y";
  stem = "7_m";
  placed = (λ w h. h, tt);
  readable = refl;
  syncs = refl;
  links = refl;
  free = refl;
  under = (λ w h. ground arith, tt);
  dotted = refl;
  small = omega arith;
  loads = refl;
  opens = refl;
}

abbrev printed : Option (Value ℕ) → Result IoError String
printed (some (string s)) = ok s
printed (some (array (cons (string s) (cons (string t) nil)))) = ok (push_str s (push_str "," t))
printed _ = err malformed

abbrev values : Serde (Value ℕ)
values = record {
  from_reader = λ t. ite (t ≟ "") (err malformed) (ok (string t));
  to_writer = printed;
}

load_raw_properties-store_example :
    (w' w'' : World) × (store_properties host display
        (λ s. some (string s))
        values
        (λ round f. f)
        1
        "r"
        7
        "z"
        world
      ≡ (returned (ok tt), w'))
    × (load_raw_properties host display "r" 7 w' ≡ (returned (ok "y,z"), w''))
unfolding running ready
load_raw_properties-store_example =
    load_raw_properties-store host display (λ s. some (string s)) values 0 "r" 7 "z" file_seven
      world world folder_one ready (some (string "y")) (string "z") "y,z" makes refl refl refl refl

abbrev file_meta : AtomicFile
file_meta = record { directory = "r/.ark/cache/metadata/7"; prefix = "7_m." }

makes_meta : new host "r/.ark/cache/metadata/7" world ≡ (returned (ok file_meta), world)
unfolding running
makes_meta = refl

ready_meta : IsReady os file_meta folder_one
unfolding running
ready_meta = record {
  latest = version_one;
  content = some "y";
  stem = "7_m";
  placed = (λ w h. h, tt);
  readable = refl;
  syncs = refl;
  links = refl;
  free = refl;
  under = (λ w h. ground arith, tt);
  dotted = refl;
  small = omega arith;
  loads = refl;
  opens = refl;
}

modify_ends_example :
    (result : Result IoError Unit) × (folder' : Folder) × (modify os file_seven
        (λ t. "z")
        (λ round g. g)
        3
        folder_one
      ≡ (some result, folder'))
modify_ends_example =
    modify_ends os file_seven (λ t. "z") (λ round g. g) 2 folder_one (λ g. refl) (λ round g r. r)
      ready
