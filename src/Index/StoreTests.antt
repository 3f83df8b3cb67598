-- ===== src/Index/StoreTests.antt =====
-- An index of one path that is stored and loaded, and the theorems on it.
use ark_rust.Base.{
  nat_eq, string_eq, String-discrete, ℕ_discrete, ◌≟◌, ℕ, String, ◌≡◌, refl, true, false, none,
  some, [], ◌∷◌, ite, leb, arith,
}
use ark_rust.Base.Text.{split, prepend, parse_u64, parse_digits, lines, ended, strip_cr}
use ark_rust.Base.Decimal.{display, digits, digit}
use Prim.Native.String.{◌++◌ as push_str}
use ark_rust.Error.{ArklibError, Result, ok, returned}
use ark_rust.Map.{get, insert}
use ark_rust.Map.Keys.{IsUnique}
use ark_rust.Index.State.{FilePath, ResourceIndex, IndexEntry, insert_entry, collide}
use ark_rust.Index.Scan.{Disk, DirEntry, empty_index, insert_each}
use ark_rust.Index.Tracking.{IsConsistent}
use ark_rust.Index.Load.{IndexFile, load}
use ark_rust.Index.Store.{Printer, le_entry, place, sort_by_key, timestamp, store_each, store}
use ark_rust.Index.RoundTrip.{AreReadable, reread, load-store}

abbrev disk : Disk ℕ
disk = record {
  is_there = λ p. true;
  canonicalize = λ p. ok p;
  metadata = λ p. ok (record { is_dir = false; len = 3; modified = ok 6_000_123 });
  from_path = λ p. ok 7;
  walk = λ root test. [];
}

abbrev pub text : String
text = "6 7 c\n"

abbrev pub file : IndexFile ℕ
file = record {
  lines = ok (ok "6 7 c" ∷ []);
  unix_epoch = 0;
  last_time = 9_000_000_000;
  from_str = λ t. ite (t ≟ "7") (some 7) none;
  join = λ root p. push_str (push_str root "/") p;
}

abbrev pub printer : Printer ℕ
printer = record {
  le_id = leb;
  to_string = display;
  diff_paths = λ path root. ite (path ≟ "r/c") (some "c") none;
  create_dir_all = none;
  create = none;
  writeln = λ line. none;
}

abbrev entry_c : IndexEntry ℕ
entry_c = record { modified = 6_000_123; id = 7 }

abbrev pub done : Result ArklibError Unit
done = ok tt

abbrev index_one : ResourceIndex ℕ
index_one = insert_entry "r/c" entry_c (empty_index "r")

running : Unit {0}
unfolding split prepend parse_u64 parse_digits display digits digit lines ended strip_cr
    insert_entry insert_each get insert collide place sort_by_key timestamp store_each store
    le_entry String-discrete ℕ_discrete
running = tt

stores : store printer 0 index_one ≡ (ok tt, some text)
unfolding running
stores = refl

readable : AreReadable disk file printer "r" index_one.path2id
unfolding running
readable = (
  record {
    relative = "c";
    is_below = refl;
    found = refl;
    one_line = ((refl, tt), (refl, tt));
    id_line = ((refl, tt), (refl, tt));
    id_word = (refl, tt);
    id_read = refl;
    after_epoch = omega arith;
    before_last = omega arith;
    small = omega arith;
    written = λ line. refl;
  },
  tt,
)

unique : IsUnique index_one.path2id
unfolding running
unique = (refl, tt)

load-store_example :
    (done ≡ ok tt)
    × (y : ResourceIndex ℕ) × (load disk file "r" ≡ returned (ok y))
    × IsConsistent y
    × ((p : FilePath) → get p y.path2id ≡ reread disk file printer "r" (get p index_one.path2id))
unfolding running
load-store_example =
    load-store disk file printer "r" index_one done text refl unique readable stores refl

abbrev pub found_c : DirEntry
found_c = record {
  path = "r/c";
  file_name = some "c";
  is_dir = false;
  metadata = ok (record { is_dir = false; len = 3; modified = ok 6_000_123 });
}
