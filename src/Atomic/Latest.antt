-- ===== src/Atomic/Latest.antt =====
-- `latest_version` of fs-atomic-versions/src/atomic/file.rs, and the versions in a folder.
use mathlib.Core.List.{append-nil, append_assoc}
use ark_rust.Base.{
  ◌≡◌, refl, sym, ap, ◌∙◌, ℕ, ◌≤◌, ◌<◌, none, some, List, [], ◌∷◌, ◌++◌, leb, ◌==◌, All, arith,
  if◌then◌else◌, Option-cases, Bool-cases, inl, inr,
}
use ark_rust.Error.{ok}
use ark_rust.Atomic.File.{
  Entry, Folder, ReadOnlyFile, Os, parse_version, add_entry, fold_entries, keep_version,
  latest_version,
}

-- The path of an entry has the version that its name has.
abbrev pub IsPlaced : Entry → Type 0
IsPlaced entry =
    (version : ℕ)
    → parse_version entry.file_name ≡ some version
    → parse_version (some entry.path) ≡ some version

-- No name in the folder has a version above this one.
abbrev pub IsBelow : ℕ → Folder → Type 0
IsBelow version folder =
    All (λ entry. (w : ℕ) → parse_version entry.file_name ≡ some w → w ≤ version) folder

-- The files of a version, in the order of the folder.
unfoldable pub files_of : ℕ → Folder → List ReadOnlyFile
files_of version [] = []
files_of version (entry ∷ rest) =
    let others = files_of version rest in
    elim (parse_version entry.file_name) [
      | none ↦ others
      | some w ↦
          if w == version then (record { version = w; path = entry.path }) ∷ others else others
    ]

keep-append :
    (v : ℕ) (l r : List ReadOnlyFile)
    → keep_version v (l ++ r) ≡ keep_version v l ++ keep_version v r
unfolding keep_version
keep-append v [] r = refl
keep-append v (f ∷ l) r = ground (arith, keep-append v l r)

-- What one step of the fold does.
abbrev Step : Entry → List ReadOnlyFile → ℕ → Type 0
Step entry files m =
    (l : List ReadOnlyFile) × (n : ℕ) × (add_entry entry (files, m) ≡ (l, n))
    × (m ≤ n)
    × ((w : ℕ) → parse_version entry.file_name ≡ some w → w ≤ n)
    × ((b : ℕ) → m ≤ b → ((w : ℕ) → parse_version entry.file_name ≡ some w → w ≤ b) → n ≤ b)
    × ((v : ℕ)
        → n ≤ v
        → IsPlaced entry
        → keep_version v l ≡ keep_version v files ++ files_of v (entry ∷ []))

step : (entry : Entry) (files : List ReadOnlyFile) (m : ℕ) → Step entry files m
unfolding add_entry files_of keep_version
step entry files m = elim (Option-cases (parse_version entry.file_name)) [
  | inl none_there ↦ (
    files,
    m,
    ground arith,
    omega arith,
    λ w h. absurd (ground arith),
    λ b le h. le,
    λ v le placed. ground (arith, append-nil (keep_version v files)),
  )
  | inr (w, parsed) ↦ elim (Bool-cases (leb m w)) [
    | inl above ↦ (
      files ++ (record { version = w; path = entry.path }) ∷ [],
      w,
      ground arith,
      ground arith,
      λ u h. ground arith,
      λ b le h. h w parsed,
      λ v le placed.
          keep-append v files _
          ∙ ap (λ x. keep_version v files ++ x) (ground (arith, placed w parsed)),
    )
    | inr under ↦ (
      files,
      m,
      ground arith,
      omega arith,
      λ u h. ground arith,
      λ b le h. le,
      λ v le placed. ground (arith, append-nil (keep_version v files)),
    )
  ]
]

fold-grows :
    (folder : Folder) (files : List ReadOnlyFile) (m : ℕ) → m ≤ (fold_entries folder (files, m)).1
unfolding fold_entries
fold-grows [] files m = omega arith
fold-grows (entry ∷ rest) files m =
    let (l, n, eq, le, bound, least, keeps) = step entry files m in
    rw (eq, fold_entries) (omega (arith, fold-grows rest l n))

fold-IsBelow :
    (folder : Folder) (files : List ReadOnlyFile) (m v : ℕ)
    → (fold_entries folder (files, m)).1 ≡ v
    → IsBelow v folder
unfolding fold_entries
fold-IsBelow [] files m v e = tt
fold-IsBelow (entry ∷ rest) files m v e =
    let (l, n, eq, le, bound, least, keeps) = step entry files m in
    let top : (fold_entries rest (l, n)).1 ≡ v = ap (λ x. (fold_entries rest x).1) (sym eq) ∙ e in
    (λ w h. omega (arith, bound w h, fold-grows rest l n, top), fold-IsBelow rest l n v top)

fold-least :
    (folder : Folder) (files : List ReadOnlyFile) (m b : ℕ)
    → m ≤ b
    → IsBelow b folder
    → (fold_entries folder (files, m)).1 ≤ b
unfolding fold_entries
fold-least [] files m b under h = under
fold-least (entry ∷ rest) files m b under h =
    let (l, n, eq, le, bound, least, keeps) = step entry files m in
    rw (eq, fold_entries) (fold-least rest l n b (least b under h.0) h.1)

-- No file has a version above a bound of the folder.
pub files_of_above : (b v : ℕ) (folder : Folder) → IsBelow b folder → b < v → files_of v folder ≡ []
unfolding files_of
files_of_above b v [] h less = refl
files_of_above b v (entry ∷ rest) h less = elim (Option-cases (parse_version entry.file_name)) [
  | inl unnumbered ↦ ground (arith, files_of_above b v rest h.1 less)
  | inr (w, parsed) ↦ ground (arith, h.0 w parsed, files_of_above b v rest h.1 less)
]

files_of-cons :
    (v : ℕ) (entry : Entry) (rest : Folder)
    → files_of v (entry ∷ []) ++ files_of v rest ≡ files_of v (entry ∷ rest)
unfolding files_of
files_of-cons v entry rest = ground arith

keep-fold :
    (folder : Folder) (files : List ReadOnlyFile) (m v : ℕ)
    → All IsPlaced folder
    → (fold_entries folder (files, m)).1 ≡ v
    → keep_version v (fold_entries folder (files, m)).0 ≡ keep_version v files ++ files_of v folder
unfolding fold_entries files_of
keep-fold [] files m v placed e = sym (append-nil (keep_version v files))
keep-fold (entry ∷ rest) files m v placed e =
    let (l, n, eq, le, bound, least, keeps) = step entry files m in
    let top : (fold_entries rest (l, n)).1 ≡ v = ap (λ x. (fold_entries rest x).1) (sym eq) ∙ e in
    rw (eq, fold_entries)
      (keep-fold rest l n v placed.1 top
        ∙ ap (λ x. x ++ files_of v rest) (keeps v (omega (arith, fold-grows rest l n)) placed.0)
        ∙ append_assoc (keep_version v files) (files_of v (entry ∷ [])) (files_of v rest)
        ∙ ap (λ x. keep_version v files ++ x) (files_of-cons v entry rest))

-- Where the folder can be read and the paths have the versions of their names, latest_version
-- gives the greatest version of a name in it, or 0, with all the files of that version in the
-- order of the folder.
pub latest_version_lem :
    (os : Os) (folder : Folder)
    → os.read_dir ≡ none
    → All IsPlaced folder
    → (version : ℕ) × (latest_version os folder ≡ ok (version, files_of version folder))
      × IsBelow version folder
      × ((bound : ℕ) → IsBelow bound folder → version ≤ bound)
unfolding latest_version files_of keep_version
latest_version_lem os folder readable placed =
    let v : ℕ = (fold_entries folder ([], 0)).1 in
    (
      v,
      rw readable (ap (λ l. ok (v, l)) (keep-fold folder [] 0 v placed refl)),
      fold-IsBelow folder [] 0 v refl,
      λ bound h. fold-least folder [] 0 bound (omega arith) h,
    )
