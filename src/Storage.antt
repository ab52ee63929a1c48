-- ===== src/Storage.antt =====
-- The endpoint's local SQLite storage (app/storage).
pub mod Runtime
pub mod Identifier
pub mod Retry
pub mod Audit
pub mod Uploads
pub mod Snapshots
pub mod Scans
pub mod Results
pub mod Examples
