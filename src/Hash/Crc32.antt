-- ===== src/Hash/Crc32.antt =====
-- dev-hash/src/crc32.rs: `Crc32`.
use ark_rust.Base.{ℕ, ◌+◌, ◌^◌, String, Option, none, some, length, ltb, if◌then◌else◌}
use ark_rust.Base.Text.{parse_u64}
use ark_rust.Base.Decimal.{display}
use ark_rust.Error.{ArklibError, Result, ok, err}
use ark_rust.Hash.Stream.{Bytes, Files, Hasher, hash_lines}

pub record Crc32 : Type 0 where
  pub value : ℕ

-- `u32::from_str`
unfoldable pub parse_u32 : String → Option ℕ
unfolding parse_u64
parse_u32 s = elim (parse_u64 s) [ none ↦ none | some n ↦ if ltb n (2 ^ 32) then some n else none ]

unfoldable pub from_str : String → Option Crc32
unfolding parse_u32
from_str s = elim (parse_u32 s) [ none ↦ none | some value ↦ some (record { value = value }) ]

abbrev pub to_string : Crc32 → String
to_string id = display id.value

module _ {H : Type 0} (hasher : Hasher H ℕ) where
  -- More rounds than the file has bytes are enough.
  unfoldable pub from_path : Files → String → Option (Result ArklibError Crc32)
  unfolding hash_lines
  from_path files path = elim (files.open_file path) [
    | err cause ↦ some (err (ArklibError.io cause))
    | ok content ↦
        elim (hash_lines hasher (files.fault path) (length content + 1) 0 hasher.fresh content) [
          | none ↦ none
          | some (err cause) ↦ some (err (ArklibError.io cause))
          | some (ok h) ↦ some (ok (record { value = hasher.finalize h }))
        ]
  ]

  abbrev pub from_bytes : Bytes → Result ArklibError Crc32
  from_bytes bytes = ok (record { value = hasher.finalize (hasher.update hasher.fresh bytes) })
