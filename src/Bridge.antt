-- ===== src/Bridge.antt =====
-- src/bridge: the side of a paired desktop.
pub mod Mailbox
mod Tests
