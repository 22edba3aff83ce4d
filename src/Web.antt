-- ===== src/Web.antt =====
-- The web client's library (web/src/lib) and its components (web/src/components).
pub mod UseTx
pub mod Fetch
pub mod Session
pub mod Format
pub mod Operator
pub mod Feed
pub mod Page
pub mod Labels
