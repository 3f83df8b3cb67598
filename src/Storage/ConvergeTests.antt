-- ===== src/Storage/ConvergeTests.antt =====
-- Two processes with changes of their own that sync with one file.
use ark_rust.Base.{nat_eq, string_eq, String-discrete, ℕ_discrete, ℕ, String, ◌≡◌, refl, some}
use ark_rust.Base.Int.{ℤ, ℤ-discrete}
use ark_rust.Error.{ok, returned}
use ark_rust.Map.{Map, get, insert}
use ark_rust.Map.Keys.{IsUnique}
use ark_rust.Storage.State.{Session, FileStorage, FileNode}
use ark_rust.Storage.Disk.{load_fs_data, sync_status, write_fs, read_fs, file_updated}
use ark_rust.Storage.Memory.{set, sync, merge_from}
use ark_rust.Storage.Merge.{union}
use ark_rust.Storage.Legacy.{read_version_2}
use ark_rust.Storage.Sample.{mapping, one, two, host, faithful}
use ark_rust.Storage.Converge.{sync_converges}

running : Unit {0}
unfolding String-discrete ℕ_discrete get insert write_fs read_fs load_fs_data sync_status sync
    read_version_2 set merge_from file_updated ℤ-discrete
running = tt

abbrev storage_of : Map String ℤ → ℕ → ℕ → FileStorage String ℤ
storage_of entries modified written = record {
  label = "test";
  modified = modified;
  written_to_disk = written;
  contents = mapping entries;
}

abbrev node_at : ℕ → FileNode
node_at time = record { content = "{a:2}"; modified = time }

abbrev first : Session String ℤ
first = record { storage = storage_of one 5 3; file = some (node_at 6); ticks = 0 }

abbrev first_synced : Session String ℤ
first_synced = record { storage = storage_of two 12 12; file = some (node_at 12); ticks = 3 }

abbrev second : Session String ℤ
second = record { storage = storage_of one 13 3; file = some (node_at 12); ticks = 10 }

abbrev second_synced : Session String ℤ
second_synced = record { storage = storage_of two 22 22; file = some (node_at 22); ticks = 13 }

abbrev first_again : Session String ℤ
first_again = record { storage = storage_of two 22 22; file = some (node_at 22); ticks = 3 }

one-IsUnique : IsUnique one
unfolding running
one-IsUnique = (refl, tt)

two-IsUnique : IsUnique two
unfolding running
two-IsUnique = (refl, tt)

sync_converges_example :
    ((k : String) → get k two ≡ union host (get k one) (union host (get k one) (get k two)))
    × (first_again.storage.contents ≡ second_synced.storage.contents)
    × (load_fs_data host first_again ≡ returned (ok (mapping two)))
unfolding running
sync_converges_example =
    sync_converges host faithful refl refl first first_synced second second_synced first_again
      (mapping two) refl refl one-IsUnique two-IsUnique refl refl refl refl refl refl refl refl
