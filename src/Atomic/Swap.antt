-- ===== src/Atomic/Swap.antt =====
-- `compare_and_swap` of fs-atomic-versions/src/atomic/file.rs, and what comes after a swap.
use Prim.Native.String.{◌++◌ as push_str}
use ark_rust.Base.{
  ◌≡◌, refl, sym, ◌∙◌, ℕ, ◌+◌, ◌-◌, ◌%◌, ◌^◌, ◌≤◌, String, none, some, [], ◌∷◌, All, arith,
  Option-cases, Bool-cases, inl, inr,
}
use ark_rust.Error.{ok, err, IoError, already_exists}
use ark_rust.Atomic.File.{
  Entry, Folder, ReadOnlyFile, AtomicFile, Os, parse_version, latest_version, prune_old_versions,
  compare_and_swap, load, name, path, is_old,
}
use ark_rust.Atomic.Names.{parse-name, parse-path}
use ark_rust.Atomic.Latest.{IsPlaced, IsBelow, latest_version_lem, files_of, files_of_above}

-- The entry that a swap makes.
abbrev pub linked : Os → AtomicFile → ReadOnlyFile → String → Entry
linked os file current content = record {
  file_name = some (name file (current.version + 1));
  path = path file (current.version + 1);
  content = content;
}

pub unreadable :
    (os : Os) (folder : Folder) (cause : IoError)
    → os.read_dir ≡ some cause
    → latest_version os folder ≡ err cause
unfolding latest_version
unreadable os folder cause fails = rw fails refl

-- The version after one that is not above the latest is not pruned.
prune_fresh :
    (os : Os) (version current : ℕ) (folder : Folder) (entry : Entry)
    → parse_version entry.file_name ≡ some (current + 1)
    → version ≤ current
    → current + 11 ≤ 2 ^ 64
    → (prune_old_versions os version (entry ∷ folder)).1
      ≡ entry ∷ (prune_old_versions os version folder).1
unfolding prune_old_versions
prune_fresh os version current folder entry parses le small =
    let stays : (current + 1 + 10 - 1) % 2 ^ 64 ≡ current + 10 = omega arith in ground arith

pub prune-All :
    (P : Entry → Type 0) (os : Os) (version : ℕ) (folder : Folder)
    → All P folder
    → All P (prune_old_versions os version folder).1
unfolding prune_old_versions
prune-All P os version [] h = tt
prune-All P os version (entry ∷ rest) h = elim (Bool-cases (is_old os version entry)) [
  | inl old ↦ rw (old, prune_old_versions) (prune-All P os version rest h.1)
  | inr new ↦ rw (new, prune_old_versions) (h.0, prune-All P os version rest h.1)
]

pub working :
    (os : Os) (file : AtomicFile) (current : ReadOnlyFile) (content : String)
    (folder folder' : Folder)
    → compare_and_swap os file current content folder ≡ (ok tt, folder')
    → (os.read_dir ≡ none) × (os.sync_data ≡ none)
unfolding compare_and_swap
working os file current content folder folder' h = elim (Option-cases os.read_dir) [
  | inl readable ↦ (readable, ground arith)
  | inr (cause, fails) ↦ absurd (ground (arith, unreadable os folder cause fails))
]

-- What a swap that succeeds does: the new version stands first, and old ones are gone.
pub swapped :
    (os : Os) (file : AtomicFile) (current : ReadOnlyFile) (content : String)
    (folder folder' : Folder)
    → All IsPlaced folder
    → parse_version (some (name file (current.version + 1))) ≡ some (current.version + 1)
    → current.version + 11 ≤ 2 ^ 64
    → compare_and_swap os file current content folder ≡ (ok tt, folder')
    → (version : ℕ) × (rest : Folder) × (latest_version os folder
        ≡ ok (version, files_of version folder))
      × (version ≤ current.version)
      × (folder' ≡ linked os file current content ∷ rest)
      × (rest ≡ (prune_old_versions os version folder).1)
      × IsBelow version folder
unfolding compare_and_swap
swapped os file current content folder folder' placed parses small h =
    elim (Option-cases os.read_dir) [
      | inr (cause, fails) ↦ absurd (ground (arith, unreadable os folder cause fails))
      | inl readable ↦
          let (version, found, below, least) = latest_version_lem os folder readable placed in
          let not_later : version ≤ current.version = ground arith in
          (
            version,
            (prune_old_versions os version folder).1,
            found,
            not_later,
            ground (
              arith,
              prune_fresh os version current.version folder (linked os file current content) parses
                  not_later small,
            ),
            refl,
            below,
          )
    ]

pub IsBelow-le : (v b : ℕ) (folder : Folder) → v ≤ b → IsBelow v folder → IsBelow b folder
IsBelow-le v b [] le h = tt
IsBelow-le v b (entry ∷ rest) le h = (λ w r. omega (arith, h.0 w r), IsBelow-le v b rest le h.1)

-- The latest version of a folder with a new entry above the others.
pub latest_fresh :
    (os : Os) (made : Os) (file : AtomicFile) (current : ReadOnlyFile) (content : String)
    (version : ℕ) (rest : Folder)
    → os.read_dir ≡ none
    → IsPlaced (linked made file current content)
    → All IsPlaced rest
    → parse_version (some (name file (current.version + 1))) ≡ some (current.version + 1)
    → version ≤ current.version
    → IsBelow version rest
    → latest_version os (linked made file current content ∷ rest)
      ≡ ok (
        current.version + 1,
        (record { version = current.version + 1; path = path file (current.version + 1) }) ∷ [],
      )
unfolding files_of
latest_fresh os made file current content version rest readable fresh remain parses le lower =
    let (later, finds, below, least) =
      latest_version_lem os (linked made file current content ∷ rest) readable (fresh, remain) in
    let up : current.version + 1 ≤ later = below.0 (current.version + 1) parses in
    let down : later ≤ current.version + 1 =
      least (current.version + 1)
        (λ w r. ground arith, IsBelow-le version _ rest (omega arith) lower) in
    finds ∙ ground (arith, files_of_above version (current.version + 1) rest lower)

latest_swapped :
    (os : Os) (file : AtomicFile) (current : ReadOnlyFile) (content : String)
    (folder folder' : Folder)
    → All IsPlaced folder
    → parse_version (some (name file (current.version + 1))) ≡ some (current.version + 1)
    → parse_version (some (path file (current.version + 1))) ≡ some (current.version + 1)
    → current.version + 11 ≤ 2 ^ 64
    → compare_and_swap os file current content folder ≡ (ok tt, folder')
    → latest_version os folder'
      ≡ ok (
        current.version + 1,
        (record { version = current.version + 1; path = path file (current.version + 1) }) ∷ [],
      )
latest_swapped os file current content folder folder' placed parses located small h =
    let (version, rest, found, le, is, pruned, under) =
      swapped os file current content folder folder' placed parses small h in
    let (readable, syncs) = working os file current content folder folder' h in
    rw is (
      latest_fresh os os file current content version rest readable
        (λ w r. located ∙ sym parses ∙ r) (rw pruned (prune-All IsPlaced os version folder placed))
        parses le (rw pruned (prune-All _ os version folder under)))

latest_dotted :
    (os : Os) (file : AtomicFile) (current : ReadOnlyFile) (content stem : String)
    (folder folder' : Folder)
    → All IsPlaced folder
    → file.prefix ≡ push_str stem "."
    → current.version + 11 ≤ 2 ^ 64
    → compare_and_swap os file current content folder ≡ (ok tt, folder')
    → latest_version os folder'
      ≡ ok (
        current.version + 1,
        (record { version = current.version + 1; path = path file (current.version + 1) }) ∷ [],
      )
latest_dotted os file current content stem folder folder' placed dotted small h =
    latest_swapped os file current content folder folder' placed
      (parse-name file stem (current.version + 1) dotted (omega arith))
      (parse-path file stem (current.version + 1) dotted (omega arith)) small h

-- After a swap that succeeds, another swap from the same version reports that it is not the
-- latest and changes nothing, where the paths have the versions of their names, the prefix ends
-- with a dot and the version is far from 2^64.
pub compare_and_swap_once :
    (os : Os) (file : AtomicFile) (current : ReadOnlyFile) (content other stem : String)
    (folder folder' : Folder)
    → All IsPlaced folder
    → file.prefix ≡ push_str stem "."
    → current.version + 11 ≤ 2 ^ 64
    → compare_and_swap os file current content folder ≡ (ok tt, folder')
    → compare_and_swap os file current other folder' ≡ (
      err (record {
        kind = already_exists;
        message = "the `current` file is not the latest version";
      }),
      folder',
    )
unfolding compare_and_swap
compare_and_swap_once os file current content other stem folder folder' placed dotted small h =
    let (readable, syncs) = working os file current content folder folder' h in
    ground (arith, latest_dotted os file current content stem folder folder' placed dotted small h)

-- After a swap that succeeds, load gives the file of the next version that the swap has made,
-- where the paths have the versions of their names, the prefix ends with a dot and the version is
-- far from 2^64.
pub load-compare_and_swap :
    (os : Os) (file : AtomicFile) (current : ReadOnlyFile) (content stem : String)
    (folder folder' : Folder)
    → All IsPlaced folder
    → file.prefix ≡ push_str stem "."
    → current.version + 11 ≤ 2 ^ 64
    → compare_and_swap os file current content folder ≡ (ok tt, folder')
    → load os file folder'
      ≡ ok (record { version = current.version + 1; path = path file (current.version + 1) })
unfolding load
load-compare_and_swap os file current content stem folder folder' placed dotted small h =
    rw (latest_dotted os file current content stem folder folder' placed dotted small h, load) refl
