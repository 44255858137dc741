-- ===== src/Repository/Laws.antt =====
-- What the methods of repository.py promise their callers, one module for each promise.
pub mod Lookup
pub mod Rights
pub mod Final
pub mod Idempotent
pub mod Retries
pub mod Expiry
pub mod Cursor
pub mod Pages
pub mod Lives
pub mod Refines
