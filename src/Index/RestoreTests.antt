-- ===== src/Index/RestoreTests.antt =====
-- An index of one file that is built, stored and provided again.
use ark_rust.Base.{
  nat_eq, string_eq, String-discrete, ℕ_discrete, ℕ, String, Option, ◌≡◌, ◌≢◌, refl, true, false,
  some, [], ◌∷◌, arith,
}
use ark_rust.Base.Text.{split, prepend, parse_u64, parse_digits, lines, ended, strip_cr}
use ark_rust.Base.Decimal.{display, digits, digit}
use ark_rust.Error.{ok, returned, panic}
use ark_rust.Map.{get, insert, extend, contains}
use ark_rust.Index.State.{FilePath, ResourceIndex, insert_entry, collide}
use ark_rust.Index.Scan.{
  Disk, build, insert_each, discover_paths, is_hidden, scan_entries, scan_each, scan_found,
  scan_entry,
}
use ark_rust.Index.Update.{update_all}
use ark_rust.Index.Store.{le_entry, place, sort_by_key, timestamp, store_each, store, provide}
use ark_rust.Index.RoundTrip.{AreReadable, reread}
use ark_rust.Index.Rest.{update_all-build}
use ark_rust.Index.Restore.{provide-store}
use ark_rust.Index.StoreTests.{file, printer, text, done, found_c}

abbrev disk : Disk ℕ
disk = record {
  is_there = λ p. true;
  canonicalize = λ p. ok p;
  metadata = λ p. ok (record { is_dir = false; len = 3; modified = ok 6_000_123 });
  from_path = λ p. ok 7;
  walk = λ root test. some found_c ∷ [];
}

running : Unit {0}
unfolding split prepend parse_u64 parse_digits display digits digit lines ended strip_cr
    insert_entry insert_each get insert collide place sort_by_key timestamp store_each store
    le_entry String-discrete ℕ_discrete build discover_paths is_hidden scan_entries scan_each
    scan_found scan_entry extend contains
running = tt

stores : store printer 0 (build disk "r") ≡ (ok tt, some text)
unfolding running
stores = refl

readable : AreReadable disk file printer "r" (build disk "r").path2id
unfolding running
readable = (
  record {
    relative = "c";
    is_below = refl;
    found = refl;
    one_line = ((refl, tt), (refl, tt));
    id_line = ((refl, tt), (refl, tt));
    id_word = (refl, tt);
    id_read = refl;
    after_epoch = omega arith;
    before_last = omega arith;
    small = omega arith;
    written = λ line. refl;
  },
  tt,
)

provide-store_example :
    (y : ResourceIndex ℕ) × (t : Option String) × (provide disk file printer "r"
      ≡ returned (ok (y, t)))
    × ((p : FilePath)
        → get p y.path2id ≡ reread disk file printer "r" (get p (build disk "r").path2id))
unfolding running
provide-store_example = provide-store disk file "r" printer done text readable stores refl

update_all-build_example :
    ((update_all disk (build disk "r")).0 ≢ panic)
    × ((p : FilePath)
        → get p (update_all disk (build disk "r")).1.path2id ≡ get p (build disk "r").path2id)
update_all-build_example = update_all-build disk "r"
