-- ===== src/Index/Tests.antt =====
-- Runs of the index on small folders, and the theorems on them.
use mathlib.Core.Bool.{false≢true}
use text.Mathlib.TextEquality.{eq_iff}
use ark_rust.Base.{
  nat_eq, string_eq, String-discrete, ℕ_discrete, ◌≟◌, ℕ, String, ◌≡◌, ◌≢◌, ◌↔◌, refl, true, false,
  none, some, [], ◌∷◌, arith, ite, ◌⊎◌,
}
use ark_rust.Error.{ok, returned, panic}
use ark_rust.Map.{get, insert, remove, extend, contains}
use ark_rust.Index.State.{
  collide, IndexEntry, ResourceIndex, Profile, insert_entry, forget_path, forget_id, only_deleted,
  find_path, uncollide, decrement, was_at,
}
use ark_rust.Index.Scan.{Disk, DirEntry, Metadata, empty_index, build, discover_paths}
use ark_rust.Index.Single.{index_new, update_one}
use ark_rust.Index.Tracking.{IsConsistent, Holds, count_id}
use ark_rust.Index.Insert.{insert_entry-IsConsistent}
use ark_rust.Index.Build.{empty_index-IsConsistent, build-IsConsistent, path2id-build, scanned}
use ark_rust.Index.Forget.{Misplaced, forget_path_lem, not-IsConsistent-forget_id}
use ark_rust.Index.Renew.{index_new-IsConsistent}
use ark_rust.Index.Replace.{IsSound, update_one-IsSound, update_one_new}
use ark_rust.Map.Keys.{keys}
use ark_rust.Index.Update.{update_all, duration_since, curr_modified}
use ark_rust.Index.Refresh.{updated_paths, entry_after, known, path2id-update_all}
use ark_rust.Index.Drop.{IsPlain, update_all-IsConsistent}
use ark_rust.Index.Clock.{GoesForward, update_all-panic_iff}

-- What a run of the tests computes with.
running : Unit {0}
unfolding collide get insert remove extend contains insert_entry forget_path forget_id build
    index_new update_one update_all keys duration_since curr_modified find_path uncollide decrement
    was_at String-discrete ℕ_discrete
running = tt

abbrev entry_one : IndexEntry ℕ
entry_one = record { modified = 5; id = 1 }

abbrev metadata_file : Metadata
metadata_file = record { is_dir = false; len = 3; modified = ok 7 }

-- Two files, `a` and `b`, and a hidden one; the content of `b` has the id 2.
abbrev disk_two : Disk ℕ
disk_two = record {
  is_there = λ p. true;
  canonicalize = λ p. ok p;
  metadata = λ p. ok metadata_file;
  from_path = λ p. ite (p ≟ "b") (ok 2) (ok 1);
  walk = λ root test. some file_a ∷ none ∷ some file_b ∷ [];
}
  where
    file_a : DirEntry
    file_a = record {
      path = "a";
      file_name = some "a";
      is_dir = false;
      metadata = ok metadata_file;
    }

    file_b : DirEntry
    file_b = record {
      path = "b";
      file_name = some "b";
      is_dir = false;
      metadata = ok metadata_file;
    }

abbrev release : Profile
release = record { debug_assertions = false; trace_enabled = false }

abbrev debug : Profile
debug = record { debug_assertions = true; trace_enabled = true }

abbrev one_file : ResourceIndex ℕ
one_file = insert_entry "a" entry_one (empty_index "r")

abbrev two_files : ResourceIndex ℕ
two_files = insert_entry "b" entry_one one_file

one_file-IsConsistent : IsConsistent one_file
unfolding running
one_file-IsConsistent =
    insert_entry-IsConsistent "a" entry_one (empty_index "r") refl (empty_index-IsConsistent "r")

two_files-IsConsistent : IsConsistent two_files
unfolding running
two_files-IsConsistent = insert_entry-IsConsistent "b" entry_one one_file refl one_file-IsConsistent

two_files_counted : two_files.collisions ≡ (1, 2) ∷ []
unfolding running
two_files_counted = refl

Holds-b : Holds "b" 1 two_files.path2id
unfolding running
Holds-b = (entry_one, refl, refl)

build-IsConsistent_example : IsConsistent (build disk_two "r")
build-IsConsistent_example = build-IsConsistent disk_two "r"

path2id-build_example :
    get "b" (build disk_two "r").path2id
    ≡ scanned disk_two "b" (get "b" (discover_paths disk_two "r"))
path2id-build_example = path2id-build disk_two "r" "b"

build_two : get "b" (build disk_two "r").path2id ≡ some (record { modified = 7; id = 2 })
unfolding running
build_two = refl

a-ne-b : ◌≢◌ {A = String} "a" "b"
a-ne-b p = false≢true ((eq_iff "a" "b").1 p)

forget_path_lem_example :
    ((y : ResourceIndex ℕ) × (forget_path release "b" 1 two_files
        ≡ (returned (ok (only_deleted 1)), y))
      × IsConsistent y
      × (y.path2id ≡ remove "b" two_files.path2id))
    ⊎ (Misplaced release "b" 1 two_files × ((forget_path release "b" 1 two_files).0 ≡ panic))
unfolding running
forget_path_lem_example = forget_path_lem "b" 1 two_files two_files-IsConsistent Holds-b release

not-IsConsistent-forget_id_example : ¬ IsConsistent (forget_id 9 two_files).1
unfolding running
not-IsConsistent-forget_id_example = not-IsConsistent-forget_id 9 1 "a" two_files refl (omega arith)

index_new-IsConsistent_example :
    IsConsistent (index_new disk_two "c" two_files).1 ↔ (count_id 1 two_files.path2id ≢ 1)
unfolding running
index_new-IsConsistent_example =
    index_new-IsConsistent disk_two "c" "c" metadata_file (record { modified = 7; id = 1 })
      two_files refl refl refl refl refl two_files-IsConsistent

update_one-IsSound_example :
    IsSound (update_one release disk_two "b" 1 two_files)
    ⊎ (Misplaced release "b" 1 two_files
        × ((update_one release disk_two "b" 1 two_files).0 ≡ panic))
unfolding running
update_one-IsSound_example =
    update_one-IsSound release disk_two "b" "b" 1 two_files refl refl Holds-b two_files-IsConsistent

update_one_new_example :
    ((y : ResourceIndex ℕ) × (update_one release disk_two "b" 1 two_files
        ≡ (returned (ok (record { deleted = 1 ∷ []; added = ("b", 2) ∷ [] })), y))
      × IsConsistent y
      × ((q : String)
          → get q y.path2id
            ≡ ite ("b" ≟ q) (some (record { modified = 7; id = 2 })) (get q two_files.path2id)))
    ⊎ (Misplaced release "b" 1 two_files
        × ((update_one release disk_two "b" 1 two_files).0 ≡ panic))
unfolding running
update_one_new_example =
    update_one_new release disk_two "b" "b" 1 two_files refl refl Holds-b metadata_file
      (record { modified = 7; id = 2 }) refl refl (omega arith) two_files-IsConsistent

one_file-IsPlain : IsPlain one_file
unfolding running
one_file-IsPlain = record { consistent = one_file-IsConsistent; no_collisions = λ i. refl }

updated_none : updated_paths disk_two one_file ≡ some []
unfolding running
updated_none = refl

update_all-IsConsistent_example : IsConsistent (update_all disk_two one_file).1
unfolding running
update_all-IsConsistent_example =
    update_all-IsConsistent disk_two one_file [] updated_none one_file-IsPlain

path2id-update_all_example :
    get "b" (update_all disk_two one_file).1.path2id
    ≡ entry_after disk_two one_file
        (known disk_two one_file [] updated_none)
        "b"
        (get "b" (discover_paths disk_two "r"))
        none
unfolding running
path2id-update_all_example = path2id-update_all disk_two one_file [] updated_none "b"

update_all-panic_iff_example :
    ((update_all disk_two two_files).0 ≢ panic) ↔ GoesForward disk_two two_files
update_all-panic_iff_example = update_all-panic_iff disk_two two_files

update_two :
    get "b" (update_all disk_two one_file).1.path2id ≡ some (record { modified = 7; id = 2 })
unfolding running
update_two = refl
