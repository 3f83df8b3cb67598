-- ===== src/Cli/PairTests.antt =====
-- Pairs on the command line and an index that is registered, with the theorems on them.
use ark_rust.Base.{nat_eq, string_eq, ℕ, ◌≡◌, refl, true, false, none, [], ◌∷◌, leb}
use ark_rust.Base.Decimal.{display}
use ark_rust.Error.{not_found, ok, err, returned}
use ark_rust.Map.{Map, get, insert}
use ark_rust.Index.State.{FilePath, ResourceIndex}
use ark_rust.Index.Scan.{Disk, build}
use ark_rust.Index.Load.{IndexFile, load}
use ark_rust.Index.Store.{Printer, provide}
use ark_rust.Cli.Pairs.{key_value_to_str, trim, trim_start, trim_end}
use ark_rust.Cli.PairsTrip.{IsWord, key_value_to_str-text_of_pairs}
use ark_rust.Cli.Registrar.{provide_index}

trimming : Unit {0}
unfolding trim trim_start trim_end
trimming = tt

a-IsWord : IsWord "a"
unfolding trimming
a-IsWord = record { no_colon = (refl, tt); no_comma = (refl, tt); trimmed = refl }

b-IsWord : IsWord "b"
unfolding trimming
b-IsWord = record { no_colon = (refl, tt); no_comma = (refl, tt); trimmed = refl }

key_value_to_str-text_of_pairs_example :
    key_value_to_str "a:b,b:a" ≡ ok (("a", "b") ∷ ("b", "a") ∷ [])
key_value_to_str-text_of_pairs_example =
    key_value_to_str-text_of_pairs "a" "b" (("b", "a") ∷ [])
      ((a-IsWord, b-IsWord), ((b-IsWord, a-IsWord), tt))

abbrev disk : Disk ℕ
disk = record {
  is_there = λ p. true;
  canonicalize = λ p. ok p;
  metadata = λ p. ok (record { is_dir = false; len = 3; modified = ok 7 });
  from_path = λ p. ok 7;
  walk = λ root test. [];
}

abbrev file : IndexFile ℕ
file = record {
  lines = err (record { kind = not_found; message = "No such file" });
  unix_epoch = 0;
  last_time = 9_000_000_000;
  from_str = λ t. none;
  join = λ root p. p;
}

abbrev printer : Printer ℕ
printer = record {
  le_id = leb;
  to_string = display;
  diff_paths = λ path root. none;
  create_dir_all = none;
  create = none;
  writeln = λ line. none;
}

abbrev registrar_one : Map FilePath (ResourceIndex ℕ)
registrar_one = ("r", build disk "r") ∷ []

registers : provide_index disk file printer false "r" [] ≡ (returned (ok "r"), registrar_one)
unfolding provide_index provide load get insert
registers = refl
