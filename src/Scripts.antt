-- ===== src/Scripts.antt =====
-- The scripts of routerpulse/scripts and web/scripts.
pub mod Seed
pub mod Cluster
pub mod Checks
pub mod Lifecycle
pub mod OperatorFlow
