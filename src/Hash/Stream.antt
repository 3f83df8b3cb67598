-- ===== src/Hash/Stream.antt =====
-- dev-hash/src: the loop that hashes a file, the same in crc32.rs and blake3.rs.
use ark_rust.Base.{ℕ, zero, suc, String, Option, none, some, List, [], ◌∷◌, ◌==◌, if◌then◌else◌}
use ark_rust.Error.{IoError, Result, ok, err}

abbrev pub Bytes : Type 0
Bytes = List ℕ

-- The files that can be opened, with their content, and the faults of the reads of a file, by the
-- number of the read.
pub record Files : Type 0 where
  pub open_file : String → Result IoError Bytes
  pub fault : String → ℕ → Option IoError

-- A `Hasher` of a crate: its first state, and what it does with bytes.
pub record Hasher (H D : Type 0) : Type 0 where
  pub fresh : H
  pub update : H → Bytes → H
  pub finalize : H → D

-- `BufRead::read_until`: the bytes up to the delimiter, this one included, and the rest.
unfoldable pub read_until : ℕ → Bytes → Bytes × Bytes
read_until delimiter [] = ([], [])
read_until delimiter (byte ∷ bytes) =
    let (buffer, rest) = read_until delimiter bytes in
    if byte == delimiter then (byte ∷ [], bytes) else (byte ∷ buffer, rest)

-- The loop of `from_path`; `none` says that the rounds are used up.
unfoldable pub hash_lines :
    {H D : Type 0}
    → Hasher H D
    → (ℕ → Option IoError)
    → ℕ
    → ℕ
    → H
    → Bytes
    → Option (Result IoError H)
unfolding read_until
hash_lines hasher fault zero round h content = none
hash_lines hasher fault (suc rounds) round h content = elim (fault round) [
  | some cause ↦ some (err cause)
  | none ↦
      let (buffer, rest) = read_until 10 content in
      elim buffer [
        | [] ↦ some (ok h)
        | byte ∷ bytes ↦
            hash_lines hasher fault rounds (suc round) (hasher.update h (byte ∷ bytes)) rest
      ]
]
