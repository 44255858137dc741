-- ===== src/Service/Laws.antt =====
-- What the service keeps of a run, and when it runs one.
pub mod Replay
pub mod Prepare
pub mod Execute
pub mod Hash
pub mod Restore
