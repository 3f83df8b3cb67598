-- ===== src/Hash/Tests.antt =====
-- A file of two lines that is hashed by a sum, and an index of one Crc32.
use Prim.Native.String.{◌++◌ as push_str}
use ark_rust.Base.{
  string_eq, String-discrete, ℕ_discrete, ◌≟◌, ℕ, ◌+◌, ◌*◌, ◌%◌, ◌^◌, String, none, some, [], ◌∷◌,
  ◌++◌, ◌≡◌, refl, ◌⊎◌, ite, true, leb, false, ap,
}
use ark_rust.Base.Decimal.{display, digits, digit}
use ark_rust.Base.Text.{split, prepend, parse_u64, parse_digits, lines, ended, strip_cr}
use ark_rust.Error.{ArklibError, IoError, Result, ok, err}
use ark_rust.Map.{get, insert}
use ark_rust.Index.State.{ResourceIndex, IndexEntry, insert_entry, collide}
use ark_rust.Index.Scan.{Disk, empty_index, insert_each}
use ark_rust.Index.Load.{IndexFile}
use ark_rust.Index.Store.{Printer, le_entry, place, sort_by_key, timestamp, store_each, store}
use ark_rust.Hash.Stream.{Bytes, Files, Hasher, read_until, hash_lines}
use ark_rust.Hash.Crc32.{Crc32, to_string}
use ark_rust.Hash.Crc32
use ark_rust.Hash.Blake3
use ark_rust.Hash.Whole.{crc32-from_path, blake3-from_path}
use ark_rust.Hash.Index.{crc32_eq}

abbrev mix : ℕ → Bytes → ℕ
mix h [] = h
mix h (byte ∷ bytes) = mix ((h * 31 + byte) % 2 ^ 32) bytes

mix_parts : (h : ℕ) (a b : Bytes) → mix (mix h a) b ≡ mix h (a ++ b)
mix_parts h [] b = refl
mix_parts h (byte ∷ a) b = mix_parts ((h * 31 + byte) % 2 ^ 32) a b

abbrev sum32 : Hasher ℕ ℕ
sum32 = record { fresh = 7; update = mix; finalize = λ h. h }

abbrev collected : Hasher Bytes Bytes
collected = record { fresh = []; update = λ h a. h ++ a; finalize = λ h. h }

nil_last : (a : Bytes) → a ++ [] ≡ a
nil_last [] = refl
nil_last (byte ∷ a) = ap (λ l. byte ∷ l) (nil_last a)

append_parts : (h a b : Bytes) → (h ++ a) ++ b ≡ h ++ (a ++ b)
append_parts [] a b = refl
append_parts (byte ∷ h) a b = ap (λ l. byte ∷ l) (append_parts h a b)

abbrev two_lines : Bytes
two_lines = 97 ∷ 10 ∷ 98 ∷ []

abbrev files : Files
files = record { open_file = λ path. ok two_lines; fault = λ path n. none }

abbrev encode : Bytes → String
encode [] = ""
encode (byte ∷ bytes) = push_str (display byte) (encode bytes)

running : Unit {0}
unfolding split prepend parse_u64 parse_digits display digits digit lines ended strip_cr
    insert_entry insert_each get insert collide place sort_by_key timestamp store_each store
    le_entry String-discrete ℕ_discrete hash_lines read_until Crc32.from_path
running = tt

crc32-from_path_example :
    (Crc32.from_path sum32 files "a" ≡ some (Crc32.from_bytes sum32 two_lines))
    ⊎ ((n : ℕ) × (cause : IoError) × (files.fault "a" n ≡ some cause)
        × (Crc32.from_path sum32 files "a" ≡ some (err (ArklibError.io cause))))
crc32-from_path_example = crc32-from_path sum32 files "a" two_lines (λ h. refl) mix_parts refl

blake3-from_path_example :
    (Blake3.from_path collected encode files "a"
      ≡ some (Blake3.from_bytes collected encode two_lines))
    ⊎ ((n : ℕ) × (cause : IoError) × (files.fault "a" n ≡ some cause)
        × (Blake3.from_path collected encode files "a" ≡ some (err (ArklibError.io cause))))
blake3-from_path_example =
    blake3-from_path collected encode files "a" two_lines nil_last append_parts refl

abbrev disk : Disk Crc32
disk = record {
  is_there = λ p. true;
  canonicalize = λ p. ok p;
  metadata = λ p. ok (record { is_dir = false; len = 3; modified = ok 6_000_123 });
  from_path = λ p. ok (record { value = 7 });
  walk = λ root test. [];
}

abbrev base : IndexFile Crc32
base = record {
  lines = ok (ok "6 7 c" ∷ []);
  unix_epoch = 0;
  last_time = 9_000_000_000;
  from_str = λ t. none;
  join = λ root p. push_str (push_str root "/") p;
}

abbrev written : Printer Crc32
written = record {
  le_id = λ a b. leb a.value b.value;
  to_string = λ id. "";
  diff_paths = λ path root. ite (path ≟ "r/c") (some "c") none;
  create_dir_all = none;
  create = none;
  writeln = λ line. none;
}

abbrev entry_c : IndexEntry Crc32
entry_c = record { modified = 6_000_123; id = record { value = 7 } }

abbrev index_one : ResourceIndex Crc32
index_one = insert_entry "r/c" entry_c (empty_index "r")

abbrev done : Result ArklibError Unit
done = ok tt
