-- ===== src/Temporal.antt =====
-- temporal/memo_versioning.py over the table `memo_versions` (migration 026).
pub mod Versions
pub mod Queries
pub mod History
pub mod Lookup
