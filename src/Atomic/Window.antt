-- ===== src/Atomic/Window.antt =====
-- `link` and `prune_old_versions` of fs-atomic-versions/src/atomic/file.rs: which names stay.
use ark_rust.Base.{
  ℕ, ◌+◌, ◌-◌, ◌%◌, ◌^◌, ◌≤◌, ◌<◌, string_eq, String, true, false, some, [], ◌∷◌, ◌≡◌, ap, ◌∙◌,
  arith, inl, inr, Bool-cases,
}
use ark_rust.Error.{ok}
use ark_rust.Atomic.File.{
  Entry, Folder, ReadOnlyFile, AtomicFile, Os, parse_version, prune_old_versions, name, has_name,
  link, is_old,
}
use ark_rust.Atomic.Swap.{linked as entry_of}

-- A version is not pruned for one that is less than nine above it.
is_old_near :
    (os : Os) (v version : ℕ) (entry : Entry)
    → parse_version entry.file_name ≡ some v
    → version < v + 9
    → v + 10 ≤ 2 ^ 64
    → is_old os version entry ≡ false
is_old_near os v version entry parses near small =
    let stays : (v + 10 - 1) % 2 ^ 64 ≡ v + 9 = omega arith in ground arith

pub prune_near :
    (os : Os) (v version : ℕ) (entry : Entry) (rest : Folder)
    → parse_version entry.file_name ≡ some v
    → version < v + 9
    → v + 10 ≤ 2 ^ 64
    → (prune_old_versions os version (entry ∷ rest)).1
      ≡ entry ∷ (prune_old_versions os version rest).1
unfolding prune_old_versions
prune_near os v version entry rest parses near small =
    ground (arith, is_old_near os v version entry parses near small)

first_is :
    (n : String) (entry : Entry) (rest : Folder)
    → has_name n (entry ∷ rest) ≡ true
    → has_name n rest ≡ false
    → entry.file_name ≡ some n
unfolding has_name
first_is n entry rest there later = ground arith

-- A name that is there stays where its version is near.
pub has_name-prune :
    (os : Os) (n : String) (v version : ℕ) (folder : Folder)
    → parse_version (some n) ≡ some v
    → version < v + 9
    → v + 10 ≤ 2 ^ 64
    → has_name n folder ≡ true
    → has_name n (prune_old_versions os version folder).1 ≡ true
unfolding prune_old_versions has_name
has_name-prune os n v version [] parses near small there = absurd (ground arith)
has_name-prune os n v version (entry ∷ rest) parses near small there =
    elim (Bool-cases (is_old os version entry)) [
      | inr new ↦ elim (Bool-cases (has_name n rest)) [
        | inl later ↦ ground (arith, has_name-prune os n v version rest parses near small later)
        | inr first ↦ ground arith
      ]
      | inl old ↦ elim (Bool-cases (has_name n rest)) [
        | inl later ↦ ground (arith, has_name-prune os n v version rest parses near small later)
        | inr first ↦
            let named = first_is n entry rest there first in
            absurd (
              ground (
                arith,
                is_old_near os v version entry (ap parse_version named ∙ parses) near small,
              ))
      ]
    ]

-- What a link makes, and that its name was free.
pub link_made :
    (os : Os) (file : AtomicFile) (current : ReadOnlyFile) (content : String)
    (folder folder' : Folder)
    → link os file (current.version + 1) content folder ≡ ok folder'
    → (folder' ≡ entry_of os file current content ∷ folder)
      × (has_name (name file (current.version + 1)) folder ≡ false)
link_made os file current content folder folder' h = (ground arith, ground arith)

pub has_name-first :
    (n : String) (entry : Entry) (rest : Folder)
    → entry.file_name ≡ some n
    → has_name n (entry ∷ rest) ≡ true
unfolding has_name
has_name-first n entry rest named = ground arith

pub has_name-later :
    (n : String) (entry : Entry) (rest : Folder)
    → has_name n rest ≡ true
    → has_name n (entry ∷ rest) ≡ true
unfolding has_name
has_name-later n entry rest there = ground arith
