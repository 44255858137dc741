-- ===== src/Validate/Laws.antt =====
-- What holds of the operations that the node accepts, and of the loop of repairs.
pub mod Plan
pub mod Sound
pub mod Repairs
