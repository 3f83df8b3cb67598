-- ===== src/Atomic.antt =====
-- fs-atomic-versions/src/atomic/file.rs: a file whose versions stand in a folder.
pub mod File
pub mod Names
pub mod World
pub mod AppId
pub mod Create
pub mod Latest
pub mod Swap
pub mod Progress
pub mod Modify
pub mod ModifyJson
pub mod Texts
pub mod Settle
pub mod Ends
pub mod Settled
pub mod Races
pub mod Window
pub mod Fair
pub mod Raced
pub mod Register
mod Tests
mod RaceTests
