-- ===== src/Commit/Laws.antt =====
-- What a conflict keeps, and how the commit and the coordinator end.
pub mod Remap
pub mod Conflict
pub mod Loop
pub mod Script
