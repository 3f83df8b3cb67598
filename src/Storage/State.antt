-- ===== src/Storage/State.antt =====
-- fs-storage/src/base_storage.rs and file_storage.rs: `FileStorage` and its operations. A
-- `Session` is a storage with its file and the readings of the clock that were taken.
use ark_rust.Base.{ℕ, String, Bool, Option}
use ark_rust.Base.Int.{ℤ, pos}
use ark_rust.Error.{IoError, Result}
use ark_rust.Map.{Map}
use ark_rust.Storage.Monoid.{Monoid}
use ark_rust.Storage.Legacy.{Parsers}

pub data SyncStatus : Type 0 where
  in_sync mapping_stale storage_stale diverge : SyncStatus

-- `STORAGE_VERSION`
abbrev pub storage_version : ℤ
storage_version = pos 3

abbrev pub SystemTime : Type 0
SystemTime = ℕ

pub record FileNode : Type 0 where
  pub content : String
  pub modified : SystemTime

-- The calls of the operating system that may fail.
pub data Call : Type 0 where
  read_to_string open_file stat create_dir create_file write flush set_modified sync_all
        remove_file :
      Call

module _ (K V : Type 0) where
  pub record FileStorageData : Type 0 where
    pub version : ℤ
    pub entries : Map K V

  pub record FileStorage : Type 0 where
    pub label : String
    pub modified : SystemTime
    pub written_to_disk : SystemTime
    pub contents : FileStorageData

  pub record Session : Type 0 where
    pub storage : FileStorage
    pub file : Option FileNode
    pub ticks : ℕ

  -- What lies outside: the clock, the faults of the operating system during one operation, what
  -- a write that fails leaves in the file, `serde_json`, `FromStr` and `Monoid`.
  pub record Host : Type 0 where
    pub clock : ℕ → SystemTime
    pub os_time : SystemTime
    pub fault : Call → Option IoError
    pub torn : String
    pub missing : IoError
    pub has_parent : Bool
    pub to_json : FileStorageData → Option String
    pub from_json : String → Result String FileStorageData
    pub display_i32 : ℤ → String
    pub parsers : Parsers K V
    pub monoid : Monoid V
