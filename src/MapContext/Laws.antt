-- ===== src/MapContext/Laws.antt =====
-- The aliases that a language model is shown.
pub mod Aliases
pub mod Scope
pub mod Depth
pub mod Whole
pub mod Refresh
pub mod Target
