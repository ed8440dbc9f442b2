-- ===== src/Database.antt =====
-- PostgreSQL backups (internal/service/database.go): the names of dumps, the backup directory and
-- what backup, trimming, verification and restore do to it. Docker, SHA-256 and the clock are
-- parameters.
pub mod Names
pub mod Shapes
pub mod Files
pub mod Listing
pub mod Removal
pub mod Trimming
pub mod Restore
pub mod Jobs
pub mod Steps
pub mod Requests
pub mod Exclusion
pub mod Rows
pub mod History
pub mod Audited
pub mod Traces
pub mod Terminal
pub mod Verify
pub mod Checked
mod Examples
