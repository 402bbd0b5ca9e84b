-- ===== src/Agent.antt =====
-- web/src/agent: the host of the agent engine in the browser.
pub mod Watchdog
pub mod Retry
pub mod Retention
pub mod Checkpoint
pub mod Scope
mod Tests
