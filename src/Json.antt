-- ===== src/Json.antt =====
-- data-json/src/lib.rs: merging two JSON values.
pub mod Value
pub mod Merge
pub mod Uniform
pub mod Entries
pub mod Null
mod Tests
