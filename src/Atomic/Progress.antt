-- ===== src/Atomic/Progress.antt =====
-- `compare_and_swap` of fs-atomic-versions/src/atomic/file.rs where the disk has no fault.
use ark_rust.Base.{◌≡◌, ◌+◌, String, false, none, ◌∷◌, All, arith}
use ark_rust.Error.{ok}
use ark_rust.Atomic.File.{
  Folder, ReadOnlyFile, AtomicFile, Os, prune_old_versions, compare_and_swap, name, has_name,
}
use ark_rust.Atomic.Latest.{IsPlaced, IsBelow, latest_version_lem}
use ark_rust.Atomic.Swap.{linked}

-- A swap from a version that no name exceeds succeeds, where the folder can be read, the sync and
-- the link do not fail, the next name is free and the paths have the versions of their names.
pub compare_and_swap_runs :
    (os : Os) (file : AtomicFile) (current : ReadOnlyFile) (content : String) (folder : Folder)
    → All IsPlaced folder
    → os.read_dir ≡ none
    → os.sync_data ≡ none
    → os.hard_link ≡ none
    → has_name (name file (current.version + 1)) folder ≡ false
    → IsBelow current.version folder
    → (folder' : Folder) × (compare_and_swap os file current content folder ≡ (ok tt, folder'))
unfolding compare_and_swap
compare_and_swap_runs os file current content folder placed readable syncs links free under =
    let (version, found, below, least) = latest_version_lem os folder readable placed in
    (
      (prune_old_versions os version (linked os file current content ∷ folder)).1,
      ground (arith, least current.version under),
    )
