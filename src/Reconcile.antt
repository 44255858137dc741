-- ===== src/Reconcile.antt =====
-- `_reconcile_stale_requests` of features/experience_map/service.py, over the repository.
pub mod Loop
pub mod Ends
