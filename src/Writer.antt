-- ===== src/Writer.antt =====
-- talea-store-log/src/writer.rs: the task that owns a book and commits jobs in batches.
pub mod Classify
pub mod Settle
pub mod Resolve
