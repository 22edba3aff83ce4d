-- ===== src/Indexer/Ingest/Stored.antt =====
-- What a call that counts events has stored and published.
