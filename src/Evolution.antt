-- ===== src/Evolution.antt =====
-- src/ss_contracts/tooling/evolution_policy.py and evolution.py.
pub mod Version
pub mod Snapshot
pub mod Classify
pub mod Policy
pub mod Report
pub mod Compatible
pub mod Notes
pub mod Breaking
pub mod Numbers
pub mod History
mod Tests
