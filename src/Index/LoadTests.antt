-- ===== src/Index/LoadTests.antt =====
-- A load of an index file of two lines, and the theorem on it.
use ark_rust.Base.{
  nat_eq, string_eq, String-discrete, ℕ_discrete, ◌≟◌, ℕ, String, ◌≡◌, refl, true, false, none,
  some, List, [], ◌∷◌, ite,
}
use ark_rust.Base.Text.{split, prepend, parse_u64, parse_digits}
use Prim.Native.String.{◌++◌ as push_str}
use ark_rust.Error.{IoError, Result, ok, returned}
use ark_rust.Map.{get, insert}
use ark_rust.Index.State.{FilePath, ResourceIndex, insert_entry, collide}
use ark_rust.Index.Scan.{Disk, empty_index, insert_each}
use ark_rust.Index.Tracking.{IsConsistent}
use ark_rust.Index.Load.{IndexFile, load, load_lines, load_parts, load_id, load_found, spaced}
use ark_rust.Index.Reload.{recorded, load-IsConsistent}

abbrev disk : Disk ℕ
disk = record {
  is_there = λ p. true;
  canonicalize = λ p. ok p;
  metadata = λ p. ok (record { is_dir = false; len = 3; modified = ok 7 });
  from_path = λ p. ok 1;
  walk = λ root test. [];
}

abbrev two_lines : List (Result IoError String)
two_lines = ok "5 7 a b" ∷ ok "6 7 c" ∷ []

abbrev file : IndexFile ℕ
file = record {
  lines = ok two_lines;
  unix_epoch = 0;
  last_time = 9_000_000_000;
  from_str = λ t. ite (t ≟ "7") (some 7) none;
  join = λ root p. push_str (push_str root "/") p;
}

abbrev index_two : ResourceIndex ℕ
index_two =
    insert_entry "r/c" (record { modified = 6_000_000; id = 7 })
      (insert_entry "r/a b" (record { modified = 5_000_000; id = 7 }) (empty_index "r"))

running : Unit {0}
unfolding load load_lines load_parts load_id load_found spaced split prepend parse_u64 parse_digits
    insert_entry insert_each recorded get insert collide String-discrete ℕ_discrete
running = tt

loads : load disk file "r" ≡ returned (ok index_two)
unfolding running
loads = refl

load-IsConsistent_example :
    IsConsistent index_two
    × ((p : FilePath) → get p index_two.path2id ≡ get p (recorded disk file "r" two_lines))
unfolding running
load-IsConsistent_example =
    load-IsConsistent disk file "r" two_lines index_two refl loads (refl, (refl, tt))
