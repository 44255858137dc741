-- ===== src/Commit.antt =====
-- nodes/commit.py, and the coordinator that runs it beside the gap analysis.
pub mod Remap
pub mod Node
pub mod Suggestion
pub mod Coordinator
pub mod Laws
