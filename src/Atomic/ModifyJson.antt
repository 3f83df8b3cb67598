-- ===== src/Atomic/ModifyJson.antt =====
-- fs-atomic-versions/src/atomic/mod.rs: `modify_json`, and that it is `modify` on the texts.
use ark_rust.Base.{ℕ, zero, suc, String, Option, none, some, if◌then◌else◌, string_eq}
use ark_rust.Error.{IoError, Result, Outcome, ok, err, returned, panic}
use ark_rust.Exec.{Stop, failed, unfinished}
use ark_rust.Atomic.File.{Folder, AtomicFile, Os, load, compare_and_swap}
use ark_rust.Atomic.Modify.{open_version, retries}

-- `serde_json` for one type: reading a text, and writing the text of a value that may be missing.
pub record Serde (T : Type 0) : Type 0 where
  pub from_reader : String → Result IoError T
  pub to_writer : Option T → Result IoError String

module _ {T : Type 0} (serde : Serde T) where
  abbrev pub value_of : Option String → Result IoError (Option T)
  value_of none = ok none
  value_of (some content) = elim (serde.from_reader content) [
    | err cause ↦ err cause
    | ok val ↦ ok (some val)
  ]

  -- What the operator makes of the value, written; an operator may panic, which is `none`.
  abbrev pub written : Option (Option T) → Outcome IoError String
  written none = panic
  written (some val) = returned (serde.to_writer val)

  -- The text for the temporary file, from the content of the latest version.
  abbrev pub new_text : (Option T → Option (Option T)) → Option String → Outcome IoError String
  new_text operator content = elim (value_of content) [
    | err cause ↦ returned (err cause)
    | ok val ↦ written (operator val)
  ]

  -- `modify_json`, with fuel for its rounds.
  unfoldable pub modify_json :
      Os
      → AtomicFile
      → (Option T → Option (Option T))
      → (ℕ → Folder → Folder)
      → ℕ
      → Folder
      → Outcome (Stop IoError) Unit × Folder
  unfolding open_version
  modify_json os file operator others zero folder = (returned (err unfinished), folder)
  modify_json os file operator others (suc n) folder = elim (load os file folder) [
    | err cause ↦ (returned (err (failed cause)), folder)
    | ok latest ↦ elim (open_version os latest folder) [
      | err cause ↦ (returned (err (failed cause)), folder)
      | ok content ↦ elim (new_text operator content) [
        | panic ↦ (panic, folder)
        | returned (err cause) ↦ (returned (err (failed cause)), folder)
        | returned (ok text) ↦
            let (result, after) = compare_and_swap os file latest text (others n folder) in
            let again = modify_json os file operator others n after in
            if retries result then again else elim result [
              | ok _ ↦ (returned (ok tt), after)
              | err cause ↦ (returned (err (failed cause)), after)
            ]
      ]
    ]
  ]

-- The result of `modify` in the form of that of `modify_json`.
abbrev pub shaped : Option (Result IoError Unit) × Folder → Outcome (Stop IoError) Unit × Folder
shaped (none, folder) = (returned (err unfinished), folder)
shaped (some (ok _), folder) = (returned (ok tt), folder)
shaped (some (err cause), folder) = (returned (err (failed cause)), folder)
