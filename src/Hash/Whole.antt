-- ===== src/Hash/Whole.antt =====
-- dev-hash/src: a file that is hashed line by line has the hash of its content.
use ark_rust.Base.{
  ℕ, zero, suc, ◌+◌, ◌<◌, String, Option, none, some, [], ◌∷◌, ◌++◌, ◌≡◌, refl, sym, ap, ◌∙◌, ◌==◌,
  ◌⊎◌, inl, inr, arith, length, Bool-cases, Option-cases,
}
use ark_rust.Error.{ArklibError, IoError, ok, err}
use ark_rust.Hash.Stream.{Bytes, Files, Hasher, read_until, hash_lines}
use ark_rust.Hash.Crc32
use ark_rust.Hash.Blake3

read_until-append :
    (d : ℕ) (bytes : Bytes) → (read_until d bytes).0 ++ (read_until d bytes).1 ≡ bytes
unfolding read_until
read_until-append d [] = refl
read_until-append d (byte ∷ bytes) = elim (Bool-cases (byte == d)) [
  | inl is ↦ rw (is, read_until) refl
  | inr other ↦ rw (other, read_until) (ap (λ l. byte ∷ l) (read_until-append d bytes))
]

read_until-nil : (d : ℕ) (bytes : Bytes) → (read_until d bytes).0 ≡ [] → bytes ≡ []
unfolding read_until
read_until-nil d [] h = refl
read_until-nil d (byte ∷ bytes) h = absurd (ground arith)

length-read_until :
    (d : ℕ) (bytes : Bytes)
    → length (read_until d bytes).0 + length (read_until d bytes).1 ≡ length bytes
unfolding read_until
length-read_until d [] = refl
length-read_until d (byte ∷ bytes) = ground (arith, length-read_until d bytes)

module _ {H D : Type 0} (hasher : Hasher H D) (fault : ℕ → Option IoError)
    (none_more : (h : H) → hasher.update h [] ≡ h)
    (in_parts : (h : H) (a b : Bytes)
      → hasher.update (hasher.update h a) b ≡ hasher.update h (a ++ b)) where
  abbrev Ends : ℕ → ℕ → H → Bytes → Type 0
  Ends rounds round h content =
      (hash_lines hasher fault rounds round h content ≡ some (ok (hasher.update h content)))
      ⊎ ((n : ℕ) × (cause : IoError) × (fault n ≡ some cause)
          × (hash_lines hasher fault rounds round h content ≡ some (err cause)))

  round_is :
      (rounds round byte : ℕ) (h : H) (content bytes rest : Bytes)
      → fault round ≡ none
      → read_until 10 content ≡ (byte ∷ bytes, rest)
      → hash_lines hasher fault (suc rounds) round h content
        ≡ hash_lines hasher fault rounds (suc round) (hasher.update h (byte ∷ bytes)) rest
  unfolding hash_lines
  round_is rounds round byte h content bytes rest works reads = ground arith

  -- A round of the loop: what was read is not empty, and the rest is hashed after it.
  hash_lines-round :
      (rounds round : ℕ) (h : H) (content buffer rest : Bytes)
      → fault round ≡ none
      → read_until 10 content ≡ (buffer, rest)
      → buffer ++ rest ≡ content
      → ((byte : ℕ) (bytes : Bytes)
          → buffer ≡ byte ∷ bytes
          → Ends rounds (suc round) (hasher.update h (byte ∷ bytes)) rest)
      → (buffer ≡ [] → content ≡ [])
      → Ends (suc rounds) round h content
  unfolding hash_lines
  hash_lines-round rounds round h content [] rest works reads parts more empty =
      let done : content ≡ [] = empty refl in
      inl (rw (works, reads, done, hash_lines) (ap (λ k. some (ok k)) (sym (none_more h))))
  hash_lines-round rounds round h content (byte ∷ bytes) rest works reads parts more empty =
      elim (more byte bytes refl) [
        | inl whole ↦ inl (
            round_is rounds round byte h content bytes rest works reads
            ∙ (whole
                ∙ ap (λ k. some (ok k))
                    (in_parts h (byte ∷ bytes) rest ∙ ap (hasher.update h) parts)))
        | inr (n, cause, fails, ends) ↦
            inr
              (n, cause, fails, round_is rounds round byte h content bytes rest works reads ∙ ends)
      ]

  -- The loop ends with the hash of the whole or with the fault of a read.
  pub hash_lines-update :
      (rounds round : ℕ) (h : H) (content : Bytes)
      → length content < rounds
      → Ends rounds round h content
  unfolding hash_lines
  hash_lines-update zero round h content enough = absurd (omega (arith, enough))
  hash_lines-update (suc rounds) round h content enough = elim (Option-cases (fault round)) [
    | inr (cause, fails) ↦ inr (round, cause, fails, ground arith)
    | inl works ↦
        hash_lines-round rounds round h content _ _ works refl (read_until-append 10 content)
          (λ byte bytes is.
            hash_lines-update rounds (suc round) (hasher.update h (byte ∷ bytes))
              (read_until 10 content).1 (omega (arith, length-read_until 10 content, ap length is)))
          (read_until-nil 10 content)
  ]

-- Crc32::from_path of a file that opens, which hashes it line by line, gives what from_bytes
-- gives for its whole content or, where a read fails, the error of that read; it does not run out
-- of rounds, for a hasher whose state after two parts is that after both together.
pub crc32-from_path :
    {H : Type 0} (hasher : Hasher H ℕ) (files : Files) (path : String) (content : Bytes)
    → ((h : H) → hasher.update h [] ≡ h)
    → ((h : H) (a b : Bytes) → hasher.update (hasher.update h a) b ≡ hasher.update h (a ++ b))
    → files.open_file path ≡ ok content
    → (Crc32.from_path hasher files path ≡ some (Crc32.from_bytes hasher content))
      ⊎ ((n : ℕ) × (cause : IoError) × (files.fault path n ≡ some cause)
          × (Crc32.from_path hasher files path ≡ some (err (ArklibError.io cause))))
unfolding Crc32.from_path
crc32-from_path hasher files path content none_more in_parts opens =
    elim (hash_lines-update hasher (files.fault path) none_more in_parts (length content + 1) 0
      hasher.fresh content (omega arith)) [
        | inl whole ↦ inl (rw (opens, whole, Crc32.from_path) refl)
        | inr (n, cause, fails, ends) ↦
            inr (n, cause, fails, rw (opens, ends, Crc32.from_path) refl)
      ]

-- Blake3::from_path of a file that opens, which hashes it line by line, gives what from_bytes
-- gives for its whole content or, where a read fails, the error of that read; it does not run out
-- of rounds, for a hasher whose state after two parts is that after both together.
pub blake3-from_path :
    {H : Type 0} (hasher : Hasher H Bytes) (encode : Bytes → String) (files : Files) (path : String)
    (content : Bytes)
    → ((h : H) → hasher.update h [] ≡ h)
    → ((h : H) (a b : Bytes) → hasher.update (hasher.update h a) b ≡ hasher.update h (a ++ b))
    → files.open_file path ≡ ok content
    → (Blake3.from_path hasher encode files path ≡ some (Blake3.from_bytes hasher encode content))
      ⊎ ((n : ℕ) × (cause : IoError) × (files.fault path n ≡ some cause)
          × (Blake3.from_path hasher encode files path ≡ some (err (ArklibError.io cause))))
unfolding Blake3.from_path
blake3-from_path hasher encode files path content none_more in_parts opens =
    elim (hash_lines-update hasher (files.fault path) none_more in_parts (length content + 1) 0
      hasher.fresh content (omega arith)) [
        | inl whole ↦ inl (rw (opens, whole, Blake3.from_path) refl)
        | inr (n, cause, fails, ends) ↦
            inr (n, cause, fails, rw (opens, ends, Blake3.from_path) refl)
      ]
