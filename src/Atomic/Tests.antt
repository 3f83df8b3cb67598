-- ===== src/Atomic/Tests.antt =====
-- A folder with two versions, and the theorems on it.
use ark_rust.Base.{
  string_eq, String-discrete, ℕ_discrete, ◌≡◌, refl, true, none, some, [], ◌∷◌, All, arith,
}
use ark_rust.Base.Decimal.{display, digits, digit}
use ark_rust.Base.Text.{split, prepend, parse_u64, parse_digits}
use ark_rust.Error.{already_exists, other_kind, ok, err}
use ark_rust.Atomic.File.{
  Entry, Folder, ReadOnlyFile, AtomicFile, Os, parse_version, after_last, latest_version,
  prune_old_versions, compare_and_swap, load, has_name, fold_entries, keep_version, add_entry,
  find_prefix,
}
use ark_rust.Atomic.Latest.{IsPlaced, IsBelow, files_of}
use ark_rust.Atomic.Swap.{compare_and_swap_once}
use ark_rust.Atomic.Modify.{open_version, content_at}

running : Unit {0}
unfolding parse_version parse_u64 parse_digits after_last latest_version prune_old_versions
    compare_and_swap load has_name fold_entries keep_version add_entry find_prefix split prepend
    display digits digit String-discrete ℕ_discrete files_of content_at open_version
running = tt

abbrev pub os : Os
os = record {
  read_dir = none;
  sync_data = none;
  hard_link = none;
  eexist = record { kind = already_exists; message = "File exists" };
  enoent = record { kind = other_kind; message = "No such file" };
  removable = λ entry. true;
}

abbrev entry_one : Entry
entry_one = record { file_name = some "a_m.1"; path = "d/a_m.1"; content = "x" }

abbrev entry_ten : Entry
entry_ten = record { file_name = some "a_m.10"; path = "d/a_m.10"; content = "y" }

abbrev folder_two : Folder
folder_two = entry_one ∷ entry_ten ∷ []

abbrev pub file_a : AtomicFile
file_a = record { directory = "d"; prefix = "a_m." }

abbrev version_ten : ReadOnlyFile
version_ten = record { version = 10; path = "d/a_m.10" }

abbrev entry_new : Entry
entry_new = record { file_name = some "a_m.11"; path = "d/a_m.11"; content = "z" }

swaps : compare_and_swap os file_a version_ten "z" folder_two ≡ (ok tt, entry_new ∷ entry_ten ∷ [])
unfolding running
swaps = refl

placed : All IsPlaced folder_two
unfolding running
placed = (λ w h. h, (λ w h. h, tt))

under_ten : IsBelow 10 folder_two
unfolding running
under_ten = (λ w h. ground arith, (λ w h. ground arith, tt))

compare_and_swap_once_example :
    compare_and_swap os file_a version_ten "w" (entry_new ∷ entry_ten ∷ []) ≡ (
      err (record {
        kind = already_exists;
        message = "the `current` file is not the latest version";
      }),
      entry_new ∷ entry_ten ∷ [],
    )
unfolding running
compare_and_swap_once_example =
    compare_and_swap_once os file_a version_ten "z" "w" "a_m" folder_two
      (entry_new ∷ entry_ten ∷ []) placed refl (omega arith) swaps
