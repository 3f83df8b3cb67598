-- ===== src/Storage.antt =====
-- fs-storage/src: a key-value mapping in memory that is kept in step with a file.
pub mod Monoid
pub mod Legacy
pub mod State
pub mod Disk
pub mod Memory
pub mod Merge
pub mod Sync
pub mod RoundTrip
pub mod Fault
pub mod Progress
pub mod Converge
mod Tests
pub mod Migration
mod Sample
mod ConvergeTests
