-- ===== src/Platform.antt =====
-- web/src/platform: the primitives that both targets share.
pub mod Paths
pub mod Csv
pub mod Memory
mod Tests
