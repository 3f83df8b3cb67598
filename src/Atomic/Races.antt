-- ===== src/Atomic/Races.antt =====
-- fs-atomic-versions/src/atomic/mod.rs and file.rs: several processes that run `modify`, with the
-- parts of `compare_and_swap` as steps of their own.
use ark_rust.Base.{
  ℕ, ◌+◌, ◌<◌, ◌≤◌, ◌^◌, String, Option, none, some, List, [], ◌∷◌, ◌≡◌, length, if◌then◌else◌,
  ◌==◌,
}
use ark_rust.Error.{ok}
use ark_rust.Atomic.File.{
  Folder, ReadOnlyFile, AtomicFile, Os, load, latest_version, link, prune_old_versions,
}
use ark_rust.Atomic.Modify.{open_version, buffer}

-- Where a process is: before the load; with the version that it has read; after the check, which
-- has found the latest version; or before the pruning for the version of its check.
pub data Stage : Type 0 where
  idle : Stage
  holding : ReadOnlyFile → Option String → Stage
  checked : ReadOnlyFile → Option String → ℕ → Stage
  linked : ℕ → Stage

-- The folder, the processes, and those that have linked a version, the last one first.
pub record Racers : Type 0 where
  pub folder : Folder
  pub stage : ℕ → Stage
  pub log : List ℕ

abbrev pub move : (ℕ → Stage) → ℕ → Stage → ℕ → Stage
move stage i p j = if j == i then p else stage j

-- A process may give up at any point, as after an error. Between its load and its link fewer than
-- ten versions are made by others.
pub data Race (file : AtomicFile) (operator : ℕ → String → String) (s : Racers)
    : Racers → Type 0 where
  read :
      (os : Os) (i : ℕ) (latest : ReadOnlyFile) (content : Option String)
      → load os file s.folder ≡ ok latest
      → open_version os latest s.folder ≡ ok content
      → Race file operator s (record s { stage = move s.stage i (holding latest content) })
  check :
      (os : Os) (i : ℕ) (latest : ReadOnlyFile) (content : Option String) (version : ℕ)
      (files : List ReadOnlyFile)
      → s.stage i ≡ holding latest content
      → latest_version os s.folder ≡ ok (version, files)
      → version ≤ latest.version
      → Race file operator s (record s { stage = move s.stage i (checked latest content version) })
  make :
      (os : Os) (i : ℕ) (latest : ReadOnlyFile) (content : Option String) (version : ℕ)
      (folder : Folder)
      → s.stage i ≡ checked latest content version
      → link os file (latest.version + 1) (operator i (buffer content)) s.folder ≡ ok folder
      → length s.log < latest.version + 10
      → latest.version + 11 ≤ 2 ^ 64
      → Race file operator s
          (record { folder = folder; stage = move s.stage i (linked version); log = i ∷ s.log })
  prune :
      (os : Os) (i version : ℕ)
      → s.stage i ≡ linked version
      → Race file operator s (record s {
        folder = (prune_old_versions os version s.folder).1;
        stage = move s.stage i idle;
      })
  give_up : (i : ℕ) → Race file operator s (record s { stage = move s.stage i idle })

abbrev pub line_up : Racers
line_up = record { folder = []; stage = λ i. idle; log = [] }

pub data Run (file : AtomicFile) (operator : ℕ → String → String) : Racers → Type 0 where
  here : Run file operator line_up
  next : {s t : Racers} → Run file operator s → Race file operator s t → Run file operator t

-- The register that the file implements: the operators of a log, one after the other.
unfoldable pub outcome : (ℕ → String → String) → List ℕ → Option String
outcome operator [] = none
outcome operator (i ∷ log) = some (operator i (buffer (outcome operator log)))
