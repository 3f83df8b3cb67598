-- ===== src/Storage/Tests.antt =====
-- Runs of the file storage on a small disk, and the theorems on them.
use ark_rust.Base.{nat_eq, string_eq, String-discrete, ℕ_discrete, ℕ, String, ◌≡◌, refl, some, []}
use ark_rust.Base.Int.{ℤ, pos, ℤ-discrete}
use ark_rust.Error.{ok, err, returned}
use ark_rust.Map.{Map, get, insert}
use ark_rust.Storage.State.{Session, FileStorage, Host, diverge, in_sync}
use ark_rust.Storage.Disk.{load_fs_data, sync_status, write_fs, read_fs, file_updated}
use ark_rust.Storage.Memory.{set, sync, merge_from, new}
use ark_rust.Storage.Merge.{union}
use ark_rust.Storage.Sync.{sync-in_sync}
use ark_rust.Storage.Progress.{IsSmooth, sync_runs}
use ark_rust.Storage.Migration.{mismatch, load-write_legacy}
use ark_rust.Storage.RoundTrip.{sync_diverged}
use ark_rust.Map.Keys.{IsUnique}
use ark_rust.Storage.Legacy.{parse_lines, parse_parts, parse_second, read_version_2}
use ark_rust.Base.Text.{split, lines, strip_cr, prepend, ended}
use ark_rust.Storage.Sample.{mapping, one, two, host, faithful}

-- What a run of the tests computes with.
running : Unit {0}
unfolding String-discrete ℕ_discrete get insert write_fs read_fs load_fs_data sync_status sync new
    read_version_2 set merge_from file_updated lines strip_cr prepend ended parse_lines parse_parts
    parse_second split ℤ-discrete
running = tt

abbrev storage_of : Map String ℤ → ℕ → ℕ → FileStorage String ℤ
storage_of entries modified written = record {
  label = "test";
  modified = modified;
  written_to_disk = written;
  contents = mapping entries;
}

-- A file with the value 2, and a storage with the value 1; both changed after the last sync.
abbrev session : Session String ℤ
session = record {
  storage = storage_of one 5 3;
  file = some (record { content = "{a:2}"; modified = 6 });
  ticks = 0;
}

abbrev session_merged : Session String ℤ
session_merged = record {
  storage = storage_of two 12 12;
  file = some (record { content = "{a:2}"; modified = 12 });
  ticks = 3;
}

two-IsUnique : IsUnique two
unfolding running
two-IsUnique = (refl, tt)

diverges : sync_status host session ≡ returned (ok diverge)
unfolding running
diverges = refl

loads : load_fs_data host session ≡ returned (ok (mapping two))
unfolding running
loads = refl

runs : sync host session ≡ (returned (ok tt), session_merged)
unfolding running
runs = refl

sync-in_sync_example : sync_status host session_merged ≡ returned (ok in_sync)
sync-in_sync_example = sync-in_sync host session session_merged runs

sync_diverged_example :
    ((k : String) → get k two ≡ union host (get k one) (get k two))
    × (load_fs_data host session_merged ≡ returned (ok (mapping two)))
sync_diverged_example =
    sync_diverged host faithful refl refl session session_merged (mapping two) refl two-IsUnique
      diverges loads runs

-- A disk without faults, with a text for every mapping.
abbrev host_smooth : Host String ℤ
host_smooth = record host { to_json = λ c. some "{a:2}" }

sync_runs_example :
    (s' : Session String ℤ) × (sync host_smooth session ≡ (returned (ok tt), s'))
    × (sync_status host_smooth s' ≡ returned (ok in_sync))
unfolding running
sync_runs_example =
    sync_runs host_smooth smooth session (record { content = "{a:2}"; modified = 6 }) (mapping two)
      refl reads
  where
    smooth : IsSmooth host_smooth
    smooth = record { no_fault = λ c. refl; parent = refl; renders = λ c. ("{a:2}", refl) }

    reads : load_fs_data host_smooth session ≡ returned (ok (mapping two))
    reads = refl

abbrev session_old : Session String ℤ
session_old = record {
  storage = storage_of [] 0 0;
  file = some (record { content = "version: 2\na:1"; modified = 6 });
  ticks = 0;
}

abbrev session_read : Session String ℤ
session_read = record session_old {
  storage = record {
    label = "test";
    modified = 6;
    written_to_disk = 6;
    contents = record { version = pos 2; entries = one };
  };
}

abbrev session_lost : Session String ℤ
session_lost = record {
  storage = record {
    label = "test";
    modified = 11;
    written_to_disk = 11;
    contents = record { version = pos 2; entries = two };
  };
  file = some (record { content = "{old a:2}"; modified = 11 });
  ticks = 2;
}

reads_old : read_fs host session_old ≡ (returned (ok one), session_read)
unfolding running
reads_old = refl

writes_old : write_fs host (set host "a" (pos 2) session_read) ≡ (returned (ok tt), session_lost)
unfolding running
writes_old = refl

load-write_legacy_example :
    load_fs_data host session_lost ≡ returned (err (mismatch host "test" (pos 2)))
load-write_legacy_example =
    load-write_legacy host faithful session_old session_read session_lost
      (record { content = "version: 2\na:1"; modified = 6 }) one "a" (pos 2) refl refl refl refl
      reads_old writes_old
