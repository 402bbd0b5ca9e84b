-- ===== src/Profiles.antt =====
-- web/src: profiles, and how paired devices share them.
pub mod Catalog
pub mod Store
pub mod Link
pub mod Rows
mod Tests
