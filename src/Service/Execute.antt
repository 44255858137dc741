-- ===== src/Service/Execute.antt =====
-- The run of a request in service.py.
pub mod Interrupt
pub mod Message
pub mod Run
