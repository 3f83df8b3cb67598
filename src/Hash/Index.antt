-- ===== src/Hash/Index.antt =====
-- fs-index/src/index.rs over the identifiers of dev-hash/src/crc32.rs.
use ark_rust.Base.{Eq, string_eq, ℕ_discrete, ◌-◌, ◌/◌, ◌^◌, ◌<◌, ◌≤◌, String, none, some, ◌≡◌, ap}
use ark_rust.Base.Pieces.{Lacks}
use ark_rust.Error.{ok}
use ark_rust.Map.{Map}
use ark_rust.Index.State.{FilePath, IndexEntry}
use ark_rust.Index.Scan.{Disk}
use ark_rust.Index.Load.{IndexFile}
use ark_rust.Index.Store.{Printer}
use ark_rust.Hash.Crc32.{Crc32, from_str, to_string}

-- The derived equality.
instance abbrev pub crc32_eq : Eq Crc32
crc32_eq = record {
  dec = λ a b. elim (ℕ_discrete a.value b.value) [
    | yes same ↦ yes (ap (λ n. record { value = n }) same)
    | no other ↦ no (λ h. other (ap (λ (id : Crc32). id.value) h))
  ];
}

module _ (disk : Disk Crc32) (base : IndexFile Crc32) (written : Printer Crc32)
    (root : FilePath) where
  -- The index file and its printer with the identifiers of the crate.
  abbrev pub file : IndexFile Crc32
  file = record base { from_str = from_str }

  abbrev pub printer : Printer Crc32
  printer = record written { to_string = to_string }

  -- An entry that `store` can print and `load` can read, whatever its id is.
  pub record IsPlain (path : FilePath) (entry : IndexEntry Crc32) : Type 0 where
    pub relative : String
    pub is_below : written.diff_paths path root ≡ some relative
    pub found : disk.canonicalize (base.join root relative) ≡ ok path
    pub one_line : Lacks 10 relative × Lacks 13 relative
    pub is_u32 : entry.id.value < 2 ^ 32
    pub after_epoch : base.unix_epoch ≤ entry.modified
    pub before_last : entry.modified ≤ base.last_time
    pub small : (entry.modified - base.unix_epoch) / 1_000_000 < 2 ^ 64
    pub writes : (line : String) → written.writeln line ≡ none
