-- ===== src/Cli/Utils.antt =====
-- ark-cli/src/commands/file/utils.rs.
use Prim.Native.Nat.{◌+◌}
use Prim.Native.Char.{Char, code}
use Prim.Native.String.{◌++◌ as push_str}
use ark_rust.Base.{
  string_eq, ℕ, zero, suc, String, Option, none, some, List, [], ◌∷◌, ltb, ◌==◌, if◌then◌else◌,
}
use ark_rust.Base.Text.{split}
use ark_rust.Base.Decimal.{display}
use ark_rust.Error.{ArklibError, IoError, Outcome, ok, err, returned, panic, Result}
use ark_rust.Exec.{Exec, ◌>>=◌, Stop, failed, map_stop, pure, fail, raise}
use ark_rust.Map
use ark_rust.Map.{Map, extend}
use ark_rust.Json.Value.{Value, object, string, entries, fields}
use ark_rust.Atomic.File.{Folder, ReadOnlyFile, AtomicFile, load}
use ark_rust.Atomic.World.{World, Host, in_folder}
use ark_rust.Atomic.Modify.{modify}
use ark_rust.Atomic.ModifyJson.{Serde, modify_json, shaped}
use ark_rust.Cli.Fault.{AppError, InlineJsonParseError}
use ark_rust.Cli.Pairs.{key_value_to_str}

-- ark-cli/src/models/mod.rs
pub data Format : Type 0 where
  key_value raw : Format

-- What other processes do in each round of a loop, and how many rounds there can be.
pub record Rounds : Type 0 where
  pub others : ℕ → Folder → Folder
  pub count : ℕ

abbrev pub parsed :
    Result InlineJsonParseError (List (String × String))
    → Exec World (Stop AppError) (List (String × String))
parsed (ok values) = pure values
parsed (err cause) = fail (failed (AppError.inline_json_parse_error cause))

module _ {N : Type 0} where
  -- `Value::String` for each value.
  unfoldable pub strings : List (String × String) → Map String (Value N)
  strings [] = []
  strings ((key, value) ∷ pairs) = (key, string value) ∷ strings pairs

  -- The operator of `append_json`.
  unfoldable pub append_values : List (String × String) → Option (Value N) → Option (Value N)
  unfolding strings extend
  append_values pairs (some (object values)) =
      some (object (fields (extend (extend [] (entries values)) (strings pairs))))
  append_values pairs _ = some (object (fields (extend [] (strings pairs))))

  -- The operator of `file_insert`.
  abbrev pub only_values : List (String × String) → Option (Value N) → Option (Value N)
  only_values values current = some (object (fields (extend [] (strings values))))

module _ {N : Type 0} (host : Host) (serde : Serde (Value N)) (rounds : Rounds)
    (error_text : IoError → String) where
  abbrev pub modify_at : AtomicFile → (String → String) → Exec World (Stop IoError) Unit
  modify_at file operator = in_folder (failed host.enoent) file.directory (λ folder.
      shaped (modify (host.os file.directory) file operator rounds.others rounds.count folder))

  abbrev pub modify_json_at :
      AtomicFile → (Option (Value N) → Option (Value N)) → Exec World (Stop IoError) Unit
  modify_json_at file operator = in_folder (failed host.enoent) file.directory (
      modify_json serde (host.os file.directory) file (λ val. some (operator val)) rounds.others
        rounds.count)

  unfoldable pub append_json :
      AtomicFile → List (String × String) → Exec World (Stop ArklibError) Unit
  append_json atomic_file pairs =
      raise (map_stop ArklibError.io) (modify_json_at atomic_file (append_values pairs))

  unfoldable pub file_append : AtomicFile → String → Format → Exec World (Stop AppError) Unit
  unfolding append_json key_value_to_str
  file_append atomic_file content raw =
      raise (map_stop AppError.io_error)
        (modify_at atomic_file (λ current. push_str current content))
  file_append atomic_file content key_value = do
    values ← parsed (key_value_to_str content)
    raise (map_stop AppError.arklib_error) (append_json atomic_file values)

  unfoldable pub file_insert : AtomicFile → String → Format → Exec World (Stop AppError) Unit
  unfolding key_value_to_str
  file_insert atomic_file content raw =
      raise (map_stop AppError.io_error) (modify_at atomic_file (λ current. content))
  file_insert atomic_file content key_value = do
    values ← parsed (key_value_to_str content)
    raise (map_stop (λ cause. AppError.file_operation_error (error_text cause)))
        (modify_json_at atomic_file (only_values values))

-- `{: <n}`: spaces up to the width, counted in characters.
unfoldable pub pad : ℕ → String → String
pad zero s = s
pad (suc n) String.[] = String.◌∷◌ " " (pad n String.[])
pad (suc n) (String.◌∷◌ c s) = String.◌∷◌ c (pad n s)

unfoldable pub format_line : String → String → String → String → String
unfolding pad
format_line version name machine path = push_str (pad 8 version) (
    push_str " "
      (push_str (pad 14 name) (push_str " " (push_str (pad 36 machine) (push_str " " path)))))

-- The bytes of a character in UTF-8.
abbrev pub len_utf8 : ℕ → ℕ
len_utf8 c = if ltb c 128 then 1 else if ltb c 2048 then 2 else if ltb c 65536 then 3 else 4

unfoldable pub len : String → ℕ
len String.[] = 0
len (String.◌∷◌ c s) = len_utf8 (code c) + len s

abbrev pub then_char : Char → Option String → Option String
then_char c none = none
then_char c (some s) = some (String.◌∷◌ c s)

-- `&machine[..machine.len() - 2]`: `none` is the panic where this is no end of a character.
unfoldable pub without_two : String → Option String
unfolding len
without_two String.[] = none
without_two (String.◌∷◌ c s) =
    let rest = then_char c (without_two s) in
    if len (String.◌∷◌ c s) == 2 then some String.[] else rest

module _ (host : Host) where
  -- The line for a file whose name was split; the name has to have a second piece.
  unfoldable pub format_pieces : ReadOnlyFile → List String → Outcome AppError (Option String)
  unfolding without_two
  format_pieces current (name ∷ machine ∷ _) = elim (without_two machine) [
    | none ↦ panic
    | some machine' ↦
        returned (ok (some (format_line (display current.version) name machine' current.path)))
  ]
  format_pieces current _ = panic

  unfoldable pub format_current : ReadOnlyFile → Outcome AppError (Option String)
  unfolding format_pieces split
  format_current current =
      if current.version == 0 then returned (ok none) else elim (host.file_name current.path) [
        | none ↦ panic
        | some none ↦ panic
        | some (some file_name) ↦ format_pieces current (split 95 file_name)
      ]

  unfoldable pub format_file : AtomicFile → World → Outcome AppError (Option String)
  unfolding format_current
  format_file file w = elim (Map.get file.directory w.folders) [
    | none ↦ returned (ok none)
    | some folder ↦ elim (load (host.os file.directory) file folder) [
      | err cause ↦ returned (ok none)
      | ok current ↦ format_current current
    ]
  ]
