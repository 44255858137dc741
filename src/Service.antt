-- ===== src/Service.antt =====
-- service.py, `ExperienceMapService`, and the errors of errors.py.
pub mod Errors
pub mod Payloads
pub mod Prepare
pub mod Execute
pub mod Restore
pub mod Laws
