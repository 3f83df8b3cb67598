-- ===== src/Atomic/RaceTests.antt =====
-- Two processes that modify one file: both read and check it, one links its version, and the other
-- one is refused and tries again.
use Prim.Native.String.{◌++◌ as push_str}
use ark_rust.Base.{
  String-discrete, ℕ_discrete, string_eq, zero, suc, ℕ, String, ◌≡◌, refl, none, some, [], ◌∷◌,
  arith, length,
}
use ark_rust.Error.{ok}
use ark_rust.Atomic.File.{
  Folder, ReadOnlyFile, load, parse_version, after_last, latest_version, prune_old_versions,
  compare_and_swap, has_name, fold_entries, keep_version, add_entry, find_prefix,
}
use ark_rust.Base.Decimal.{display, digits, digit}
use ark_rust.Base.Text.{split, prepend, parse_u64, parse_digits}
use ark_rust.Atomic.Tests.{os, file_a}
use ark_rust.Atomic.Modify.{open_version, content_at, modify}
use ark_rust.Atomic.Races.{Racers, read, check, make, prune, give_up, Run, here, next, outcome}
use ark_rust.Atomic.Register.{modify-Register, modify-Run}

running : Unit {0}
unfolding parse_version parse_u64 parse_digits after_last latest_version prune_old_versions
    compare_and_swap load has_name fold_entries keep_version add_entry find_prefix split prepend
    display digits digit String-discrete ℕ_discrete content_at open_version outcome
running = tt

abbrev operator : ℕ → String → String
operator zero old = push_str old "0"
operator (suc i) old = push_str old "1"

abbrev version_zero : ReadOnlyFile
version_zero = record { version = 0; path = "d/a_m.0" }

abbrev version_one : ReadOnlyFile
version_one = record { version = 1; path = "d/a_m.1" }

abbrev one_zero : Folder
one_zero = record { file_name = some "a_m.1"; path = "d/a_m.1"; content = "0" } ∷ []

-- Both have read and checked, and the first has linked its version.
abbrev one_linked : (s : Racers) × Run file_a operator s
unfolding running
one_linked = (
  _,
  next
      (next
        (next
          (next (next here (read os 0 version_zero none refl refl))
            (read os 1 version_zero none refl refl))
          (check os 0 version_zero none 0 [] refl refl (omega arith)))
        (check os 1 version_zero none 0 [] refl refl (omega arith)))
      (make os 0 version_zero none 0 one_zero refl refl (omega arith) (omega arith)),
)

abbrev two : Folder
two = record { file_name = some "a_m.2"; path = "d/a_m.2"; content = "01" } ∷ one_zero

-- The link of the second is refused; it tries again.
abbrev tried_again : (s : Racers) × Run file_a operator s
unfolding running
tried_again = (
  _,
  next
      (next
        (next
          (next (next (next one_linked.1 (give_up 1)) (prune os 0 0 refl))
            (read os 1 version_one (some "0") refl refl))
          (check os 1 version_one (some "0") 1 (version_one ∷ []) refl refl (omega arith)))
        (make os 1 version_one (some "0") 1 two refl refl (omega arith) (omega arith)))
      (prune os 1 1 refl),
)

log_is : tried_again.0.log ≡ 1 ∷ 0 ∷ []
unfolding running
log_is = refl

modify-Register_example :
    (latest : ReadOnlyFile) × (load os file_a tried_again.0.folder ≡ ok latest)
    × (latest.version ≡ length tried_again.0.log)
    × (open_version os latest tried_again.0.folder ≡ ok (outcome operator tried_again.0.log))
modify-Register_example =
    modify-Register file_a operator "a_m" tried_again.0 refl tried_again.1 os refl

abbrev three : Folder
three = record { file_name = some "a_m.3"; path = "d/a_m.3"; content = "010" } ∷ two

modify-Run_example :
    (t : Racers) × Run file_a operator t × (t.folder ≡ three) × (t.log ≡ 0 ∷ tried_again.0.log)
unfolding running modify
modify-Run_example =
    modify-Run file_a operator "a_m" tried_again.0 0 os three refl tried_again.1 (omega arith) refl
