-- ===== src/Cli.antt =====
-- ark-cli/src: the storages that the commands read and write.
pub mod Fault
pub mod Pairs
pub mod PairsTrip
pub mod Utils
pub mod Storage
pub mod Values
pub mod Rows
pub mod Kept
pub mod Listing
pub mod Roots
pub mod Registrar
pub mod FileCommands
pub mod Session
pub mod Backup
pub mod BackupTrip
pub mod Monitor
pub mod Watching
pub mod Links
pub mod StoreCommands
pub mod Render
pub mod Program
pub mod Restart
pub mod Order
pub mod Entries
pub mod Columns
pub mod Untagged
mod Tests
mod PairTests
mod ListTests
mod BackupTests
mod WatchTests
