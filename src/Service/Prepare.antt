-- ===== src/Service/Prepare.antt =====
-- `ExperienceMapService` of service.py before the run of a request.
pub mod Request
pub mod Chat
pub mod Retry
pub mod Sessions
