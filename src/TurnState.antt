-- ===== src/TurnState.antt =====
-- state.py: what of the graph's state a turn keeps, resets and cleans up.
pub mod Fields
pub mod Turns
pub mod Laws
