-- ===== src/ThreatDb.antt =====
-- app/services/threat_db/: the lookup of a URL in Google Safe Browsing and in the local URLhaus
-- table, and the merge of the two.
pub mod Merge
pub mod Malicious
pub mod Types
pub mod Gsb
pub mod Urlhaus
pub mod Sync
pub mod Synced
pub mod Chunks
pub mod Table
mod Tests
