-- ===== src/Cli/Registrar.antt =====
-- ark-cli/src/index_registrar.rs: the indexes that were provided, by their roots. What is shared, the
-- `Arc` of an index, is its root as a key of the registrar.
use ark_rust.Base.{
  Eq, string_eq, String, Bool, false, Option, none, some, ◌≡◌, arith, inl, inr, Option-cases,
  if◌then◌else◌,
}
use ark_rust.Error.{Result-cases, Outcome-cases, ArklibError, Outcome, ok, err, returned, panic}
use ark_rust.Map
use ark_rust.Map.{Map, get, insert, get_new}
use ark_rust.Index.State.{FilePath, ResourceIndex}
use ark_rust.Index.Scan.{Disk}
use ark_rust.Index.Load.{IndexFile}
use ark_rust.Index.Store.{Printer, provide}

module _ {ResourceId : Type 0} ⦃e : Eq ResourceId⦄ (disk : Disk ResourceId)
    (file : IndexFile ResourceId) (printer : Printer ResourceId) where
  abbrev pub Registrar : Type 0
  Registrar = Map FilePath (ResourceIndex ResourceId)

  -- The index that `ResourceIndex::provide` gives, registered.
  abbrev pub registered :
      FilePath
      → Outcome ArklibError (ResourceIndex ResourceId × Option String)
      → Registrar
      → Outcome ArklibError FilePath × Registrar
  registered root (returned (ok (index, text))) registrar =
      (returned (ok root), Map.insert root index registrar)
  registered root (returned (err cause)) registrar = (returned (err cause), registrar)
  registered root panic registrar = (panic, registrar)

  -- `provide_index`; whether the lock of the registrar is poisoned is a parameter.
  unfoldable pub provide_index :
      Bool → FilePath → Registrar → Outcome ArklibError FilePath × Registrar
  provide_index poisoned root_path registrar = elim (disk.canonicalize root_path) [
    | err cause ↦ (returned (err (ArklibError.io cause)), registrar)
    | ok root ↦
        if poisoned
        then (returned (err ArklibError.parse), registrar)
        else elim (Map.get root registrar) [
          | some index ↦ (returned (ok root), registrar)
          | none ↦ registered root (provide disk file printer root) registrar
        ]
  ]

  -- The index in the registrar, copied.
  abbrev pub copied :
      Bool
      → Outcome ArklibError FilePath × Registrar
      → Outcome ArklibError (ResourceIndex ResourceId) × Registrar
  copied locked (returned (ok root), registrar) = elim (Map.get root registrar) [
    | none ↦ (panic, registrar)
    | some index ↦ if locked then (panic, registrar) else (returned (ok index), registrar)
  ]
  copied locked (returned (err _), registrar) = (panic, registrar)
  copied locked (panic, registrar) = (panic, registrar)

  -- `provide_index` of ark-cli/src/util.rs, which expects the index and its lock.
  unfoldable pub index_copy :
      Bool
      → Bool
      → FilePath
      → Registrar
      → Outcome ArklibError (ResourceIndex ResourceId) × Registrar
  unfolding provide_index
  index_copy poisoned locked root_dir registrar =
      copied locked (provide_index poisoned root_dir registrar)

  -- After an index was provided for a root, it is registered, and a second request for the same
  -- path gives the same one and changes nothing, where no lock is poisoned.
  provide_index_again :
      (root_path root : FilePath) (registrar after : Registrar)
      → provide_index false root_path registrar ≡ (returned (ok root), after)
      → (index : ResourceIndex ResourceId) × (get root after ≡ some index)
        × (provide_index false root_path after ≡ (returned (ok root), after))
  unfolding provide_index
  provide_index_again root_path root registrar after h =
      elim (Result-cases (disk.canonicalize root_path)) [
        | inl (cause, fails) ↦ absurd (ground arith)
        | inr (r, found) ↦ elim (Option-cases (get r registrar)) [
          | inr (index, there) ↦ (index, ground arith, ground arith)
          | inl new ↦ elim (Outcome-cases (provide disk file printer r)) [
            | inl panics ↦ absurd (ground arith)
            | inr (inl (cause, fails)) ↦ absurd (ground arith)
            | inr (inr ((index, text), provides)) ↦ (
              index,
              ground (arith, get_new r index registrar),
              ground (arith, get_new r index registrar),
            )
          ]
        ]
      ]
