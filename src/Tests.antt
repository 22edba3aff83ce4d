-- ===== src/Tests.antt =====
-- The theorems at concrete inputs.
mod Fixtures
pub mod Ingestion
pub mod Events
pub mod History
pub mod Reading
pub mod SignIn
pub mod Simulation
pub mod Transactions
pub mod Running
pub mod Sessions
pub mod Amounts
pub mod Checking
pub mod Feeds
pub mod Fleets
pub mod Shifts
