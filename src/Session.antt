-- ===== src/Session.antt =====
-- session.go: a session around its batches.
pub mod Inbox
pub mod Drain
pub mod Wakeup
pub mod State
pub mod Life
pub mod Teardown
pub mod Device
mod Runs
