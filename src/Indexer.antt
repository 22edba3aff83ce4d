-- ===== src/Indexer.antt =====
-- The indexer (indexer/src): decoding, retries, projections, ingestion, backfill, reconciliation and
-- the process that runs them.
pub mod EventParser
pub mod Retry
pub mod Projections
pub mod Ingest
pub mod Backfill
pub mod Reconcile
pub mod Process
