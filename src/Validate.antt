-- ===== src/Validate.antt =====
-- nodes/validate.py: the operations that the language model proposes, checked before they are
-- committed to the map.
pub mod Items
pub mod Checks
pub mod Node
pub mod Laws
