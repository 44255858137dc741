-- ===== src/Tests.antt =====
-- Runs of the models on concrete inputs, and the theorems at inputs that meet their hypotheses.
mod Requests
mod Messages
mod Turns
mod Drafts
mod Rates
mod Sweeps
mod Commits
mod Services
mod Paths
mod Refreshes
