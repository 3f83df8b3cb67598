-- ===== src/Hash.antt =====
-- dev-hash/src: the identifiers of resources that are hashes of their content.
pub mod Stream
pub mod Crc32
pub mod Blake3
pub mod Whole
pub mod Index
mod Tests
