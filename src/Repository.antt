-- ===== src/Repository.antt =====
-- features/experience_map/repository.py: sessions, requests and messages over asyncpg. A table is
-- a list of rows, a statement one function on it, and a method the composition of its statements.
-- `now` is the server's `now()` at the statement, `token` the value that `uuid.uuid4()` returned.
pub mod Rows
pub mod Sessions
pub mod Claim
pub mod Ownership
pub mod Recovery
pub mod Messages
pub mod Invariant
pub mod Lifecycle
pub mod Laws
