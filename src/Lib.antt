-- ===== src/Lib.antt =====
-- The ARK core libraries: resources in folders, found by an index of content hashes, with data
-- about them kept in storages beside the folders.
--
-- Error (data-error/src/lib.rs) has `ArklibError`, `Result`, and `Outcome`, which also shows a
-- panic. Map has `HashMap`, `BTreeMap` and `HashSet` as lists in an order of their own; what is
-- proved for every list holds for every order of iteration. Base has the shared names and tests,
-- the cutting of text into pieces and lines, and decimal numbers.
--
-- Index (fs-index/src/index.rs) models `ResourceIndex` as a record with the source's fields. Each
-- `&mut self` method is a function that returns its result and the new index, also beside an error.
-- Index/State has the types, `insert_entry`, `forget_path` and `forget_id`; Index/Scan
-- `discover_paths`, `scan_entry` and `build`; Index/Single `index_new` and `update_one`;
-- Index/Update `update_all`; Index/Load `load`, over the lines of the file, the record `IndexFile`;
-- Index/Store `store` and `provide`, with what they ask of `pathdiff` and of the disk in the record
-- `Printer`. Index/Tracking states what it is for an index to be consistent: the paths are unique,
-- `collisions` counts exactly the ids with two paths or more, and `id2path` has a path of each id
-- that has one. The modules Index/Insert, Index/Build, Index/Forget, Index/Renew, Index/Replace,
-- Index/Select, Index/Refresh, Index/Drop, Index/Clock and Index/Reload prove what the operations
-- do to it, Index/Sorted, Index/StoreLoad and Index/RoundTrip what a load makes of a stored file,
-- and Index/Rest and Index/Restore what an update and `provide` do where nothing has changed. The
-- file system, `walkdir` and the hash of a resource are the record `Disk` of functions: what they
-- answer during one call of a method. A path is the text that it displays. `Profile` says whether debug assertions are on and
-- whether the arguments of `log::trace!` are evaluated. A `SystemTime` is the number of nanoseconds
-- since the earliest time of the platform. The counters of collisions are plain numbers: they count
-- entries of a map in memory, so an addition does not overflow; the decrement of a zero counter
-- wraps.
--
-- Exec has blocks of code that change a state and may return an error or panic: what was changed
-- before stays. Storage (fs-storage/src) models `FileStorage` with it: Storage/State has the types,
-- where a `Session` is a storage with its file and the number of clock readings that were taken;
-- Storage/Disk has `load_fs_data`, `sync_status`, `read_fs`, `write_fs` and `erase`; Storage/Memory
-- `set`, `remove`, `merge_from`, `sync` and `new`; Storage/Legacy `read_version_2_fs`;
-- Storage/Monoid the trait `Monoid` and its instances. Storage/Merge, Storage/Sync,
-- Storage/Progress, Storage/RoundTrip, Storage/Converge, Storage/Migration and Storage/Fault prove
-- what they do. The record `Host` is what lies outside: the clock, which calls of the operating
-- system fail during an operation, what a failed write leaves, `serde_json`, and `FromStr`. The
-- existence of the file is read from the session; the path of the storage is not a value, since one
-- storage has one file. An `i32` of a version or a value is an integer: nothing is added to it. A
-- `BTreeMap` is a list with unique keys whose order no operation of the storage depends on.
--
-- Json (data-json/src/lib.rs) models `merge`, `merge_object` and `merge_vec`: Json/Value has
-- `serde_json::Value`, a data type with the constructors that the source matches on, over the type
-- of its numbers; Json/Merge the code; Json/Uniform, Json/Entries and Json/Null what it does to
-- arrays, to objects and to `null`. An object is the list of its entries, and `==` on values
-- decides their equality.
--
-- Atomic (fs-atomic-versions/src) models `AtomicFile` over a folder, a list of entries in the order
-- of `read_dir`: Atomic/File has `parse_version`, `latest_version`, `load`, `compare_and_swap` and
-- `prune_old_versions` of atomic/file.rs; Atomic/Modify the reading of a version and `modify` of
-- atomic/mod.rs, and Atomic/ModifyJson `modify_json`, with fuel for the rounds of their loops and
-- what other processes do in each; Atomic/AppId the file app_id.rs; Atomic/Create
-- `AtomicFile::new`. The record `World` of Atomic/World has APP_ID_PATH, the plain files and the
-- folders by their paths. Atomic/Names, Atomic/Latest, Atomic/Swap, Atomic/Progress, Atomic/Texts,
-- Atomic/Settle and Atomic/Ends prove what they do. Atomic/Races has several processes that run
-- `modify` as a step relation: a load, the check, the link and the pruning of a swap are steps of
-- their own, each with its own faults of the disk. Atomic/Settled, Atomic/Window, Atomic/Fair and
-- Atomic/Raced have the invariant, Atomic/Register what holds in every reachable state. One round
-- is enough where no process interferes; a loop whose rounds are used up is the value `unfinished`.
-- Numbers of versions are plain numbers where a digit is parsed, which refuses 2^64 and more; the
-- sum in the pruning wraps around, the next number of a swap is a plain number, which the theorems
-- keep below 2^64 by a bound on the version; 20 digits are enough for a number that is printed. The records
-- `Os` and `Host` are what lies outside: faults of the disk, the lock, paths, and the `uuid` crate.
-- A failed link is an error, since `target_os = "unix"` holds on no platform. In Atomic/Races fewer
-- than ten versions are made between the load and the link of a process: after more of them the
-- pruned name is free again.
--
-- Properties (fs-properties/src/lib.rs and fs-metadata/src/lib.rs) has the storing and loading of
-- both in Properties/Store, over `AtomicFile` and `merge`, and what a load gives after it in
-- Properties/RoundTrip. `serde_json` is the record `Serde` of two functions.
--
-- Link (data-link/src/lib.rs) has the selection of OpenGraph data in Link/Page, the types in
-- Link/Data, `save` and `load` in Link/Save, with `temp_and_move` of fs-atomic-light/src/lib.rs,
-- and what a second save does to the properties in Link/Again. A derived `Deserialize` reads
-- through a JSON value. Requests, the parsing of pages and urls, and the hash of a resource are
-- parameters.
--
-- Hash (dev-hash/src and data-resource/src/lib.rs) has the loop over the lines of a file in
-- Hash/Stream, `Crc32` in Hash/Crc32 and `Blake3` in Hash/Blake3; Hash/Whole proves that a file that
-- is hashed line by line has the hash of its content, and Hash/Index puts Crc32 into the index. The
-- hashers are a record of functions, with the law of hashing in parts as a hypothesis; more rounds
-- than the file has bytes are enough. A `u32` is read as a `u64` that is below 2^32. Pdf
-- (data-pdf/src/lib.rs) has `render_preview_page` over the crate `pdfium_render`.
--
-- Cli (ark-cli/src) has the storages of the command line, on files of lines `id:value` and on
-- folders: Cli/Fault has error.rs; Cli/Pairs `key_value_to_str` of models/mod.rs; Cli/Utils
-- commands/file/utils.rs; Cli/Storage, Cli/Values and Cli/Listing models/storage.rs; Cli/Roots
-- util.rs; Cli/Registrar index_registrar.rs; Cli/Links commands/link/utils.rs; Cli/Order,
-- Cli/Entries and Cli/Columns commands/list.rs. The other commands are in Cli/FileCommands
-- (commands/file), Cli/StoreCommands (commands/storage and commands/link), Cli/Backup, Cli/Render
-- and Cli/Monitor, with `monitor_index` of util.rs; Cli/Program has `main` around a command.
-- Cli/Untagged is about a filter without tags. Cli/Rows and Cli/Kept prove that a file of lines is
-- an association list and what `read` gives after `append` and `insert`; Cli/Session and
-- Cli/Restart take this to the commands and to two runs of the program; Cli/PairsTrip is about the
-- reading of pairs, Cli/BackupTrip about what a backup leaves, and Cli/Watching about the loop of
-- `monitor_index`, whose rounds are a list, each with the disk of its time. The record `Terminal`
-- has what the commands ask of the file system and the texts of errors. What a command prints is
-- its result; messages on the way are left out.
--
-- Not modelled are, of the atomic files, faults of their temporary files and of single entries of a
-- folder that is read; of ark-cli, the declarations of the arguments and the choice of a command from
-- them, which are the work of clap; the script data-pdf/build.rs, which downloads a library; the
-- crates behind dev-hash and data-pdf; the benches and the example; and the Java bindings, which
-- convert strings and call the file storage.
pub mod Base
pub mod Error
pub mod Map
pub mod Index
pub mod Exec
pub mod Atomic
pub mod Json
pub mod Properties
pub mod Cli
pub mod Link
pub mod Storage
pub mod Hash
pub mod Pdf
