-- ===== src/Hash/Blake3.antt =====
-- dev-hash/src/blake3.rs: `Blake3`.
use ark_rust.Base.{◌+◌, String, Option, none, some, length}
use ark_rust.Error.{ArklibError, Result, ok, err}
use ark_rust.Hash.Stream.{Bytes, Files, Hasher, hash_lines}

pub record Blake3 : Type 0 where
  pub value : String

-- Every text is taken.
abbrev pub from_str : String → Option Blake3
from_str s = some (record { value = s })

abbrev pub to_string : Blake3 → String
to_string id = id.value

-- The function `encode` is the one of the crate `hex`.
module _ {H : Type 0} (hasher : Hasher H Bytes) (encode : Bytes → String) where
  -- More rounds than the file has bytes are enough.
  unfoldable pub from_path : Files → String → Option (Result ArklibError Blake3)
  unfolding hash_lines
  from_path files path = elim (files.open_file path) [
    | err cause ↦ some (err (ArklibError.io cause))
    | ok content ↦
        elim (hash_lines hasher (files.fault path) (length content + 1) 0 hasher.fresh content) [
          | none ↦ none
          | some (err cause) ↦ some (err (ArklibError.io cause))
          | some (ok h) ↦ some (ok (record { value = encode (hasher.finalize h) }))
        ]
  ]

  abbrev pub from_bytes : Bytes → Result ArklibError Blake3
  from_bytes bytes =
      ok (record { value = encode (hasher.finalize (hasher.update hasher.fresh bytes)) })
