-- ===== src/Tests.antt =====
-- Concrete inputs at which the theorems are applied.
mod Proposals
mod Alerts
mod Reconciliation
mod Store
mod Scans
mod Notifications
mod Scoring
mod Auth
mod Context
mod Profiles
mod Comments
mod Evidence
mod Progress
mod Agent
mod Ranking
mod Explanations
mod StoredSimulations
mod Limits
mod Simulation
