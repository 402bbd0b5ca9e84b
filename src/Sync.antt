-- ===== src/Sync.antt =====
-- The sync engine of web/src/sync: the journal, the map of a workspace, the engine's round between
-- two replicas, the framing of large messages, and the phrase that a pairing shows.
pub mod Journal
pub mod Hashmap
pub mod Engine
pub mod Chunking
pub mod Control
pub mod Phrase
mod Tests
