-- ===== src/Atomic/Settled.antt =====
-- What a load of fs-atomic-versions/src/atomic/file.rs gives where a new version stands first.
use Prim.Native.String.{◌++◌ as push_str}
use ark_rust.Base.{
  string_eq, ℕ, ◌+◌, ◌≤◌, ◌^◌, String, Option, none, some, List, [], ◌∷◌, ◌≡◌, refl, sym, ◌∙◌, All,
  arith, inl, inr, Option-cases,
}
use ark_rust.Error.{ok}
use ark_rust.Atomic.File.{
  Folder, ReadOnlyFile, AtomicFile, Os, load, latest_version, path, fold_entries, keep_version,
}
use ark_rust.Atomic.Latest.{IsPlaced, IsBelow}
use ark_rust.Atomic.Names.{parse-name, parse-path}
use ark_rust.Atomic.Swap.{linked, latest_fresh, unreadable}
use ark_rust.Atomic.Modify.{open_version, content_at}

-- What a load gives on every disk that can read the folder.
abbrev pub Gives : AtomicFile → Folder → ReadOnlyFile → Option String → Type 0
Gives file folder latest content =
    (os : Os)
    → os.read_dir ≡ none
    → (files : List ReadOnlyFile) × (latest_version os folder ≡ ok (latest.version, files))
      × (load os file folder ≡ ok latest)
      × (open_version os latest folder ≡ ok content)

module _ (file : AtomicFile) where
  pub start-Gives : Gives file [] (record { version = 0; path = path file 0 }) none
  unfolding load latest_version fold_entries keep_version open_version
  start-Gives os readable = ([], rw readable refl, rw (readable, load, latest_version) refl, refl)

  -- A load that succeeds has read the folder.
  pub load-readable :
      (os : Os) (folder : Folder) (latest : ReadOnlyFile)
      → load os file folder ≡ ok latest
      → os.read_dir ≡ none
  unfolding load
  load-readable os folder latest h = elim (Option-cases os.read_dir) [
    | inl readable ↦ readable
    | inr (cause, fails) ↦ absurd (ground (arith, unreadable os folder cause fails))
  ]

  load_of :
      (os : Os) (folder : Folder) (latest : ReadOnlyFile)
      → latest_version os folder ≡ ok (latest.version, latest ∷ [])
      → load os file folder ≡ ok latest
  unfolding load
  load_of os folder latest h = rw (h, load) refl

  open_linked :
      (os made : Os) (current : ReadOnlyFile) (content : String) (rest : Folder)
      → open_version os
          (record { version = current.version + 1; path = path file (current.version + 1) })
          (linked made file current content ∷ rest)
        ≡ ok (some content)
  unfolding open_version content_at
  open_linked os made current content rest = ground arith

  module _ (stem : String) (dotted : file.prefix ≡ push_str stem ".") where
    pub linked-Gives :
        (made : Os) (current : ReadOnlyFile) (content : String) (version : ℕ) (rest : Folder)
        → All IsPlaced rest
        → version ≤ current.version
        → current.version + 11 ≤ 2 ^ 64
        → IsBelow version rest
        → IsPlaced (linked made file current content)
          × Gives file
              (linked made file current content ∷ rest)
              (record { version = current.version + 1; path = path file (current.version + 1) })
              (some content)
    linked-Gives made current content version rest remain le small lower =
        let parses = parse-name file stem (current.version + 1) dotted (omega arith) in
        let located = parse-path file stem (current.version + 1) dotted (omega arith) in
        let placed : IsPlaced (linked made file current content) =
          λ w r. located ∙ sym parses ∙ r in
        (
          placed,
          λ os readable.
              let finds =
                latest_fresh os made file current content version rest readable placed remain parses
                  le lower in
              (_, finds, load_of os _ _ finds, open_linked os made current content rest),
        )
