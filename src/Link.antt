-- ===== src/Link.antt =====
-- data-link/src/lib.rs: links, with the properties and the metadata of their pages.
pub mod Page
pub mod Data
pub mod Save
pub mod Again
mod Tests
