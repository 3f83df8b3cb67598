-- ===== src/Properties.antt =====
-- fs-properties/src/lib.rs and fs-metadata/src/lib.rs: JSON data of a resource in versioned files.
pub mod Store
pub mod RoundTrip
mod Tests
