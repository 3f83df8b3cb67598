-- ===== src/Index.antt =====
-- fs-index/src/index.rs: the index of the resources below a root folder.
pub mod State
pub mod Scan
pub mod Tracking
pub mod Insert
pub mod Build
pub mod Forget
pub mod Single
pub mod Renew
pub mod Replace
pub mod Update
pub mod Load
pub mod Reload
pub mod Store
pub mod StoreLoad
pub mod Sorted
pub mod RoundTrip
pub mod Select
pub mod Refresh
pub mod Drop
pub mod Clock
pub mod Rest
pub mod Restore
mod Tests
mod LoadTests
mod StoreTests
mod RestoreTests
