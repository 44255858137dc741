-- ===== src/MapContext.antt =====
-- map_context.py: the tree of a user's map, and what of it a language model is shown.
pub mod Snapshot
pub mod Activity
pub mod Owners
pub mod Laws
