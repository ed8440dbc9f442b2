-- ===== src/Security.antt =====
-- The container-security workflow.
pub mod Model
pub mod Findings
pub mod Operations
pub mod Rows
pub mod Episodes
pub mod History
pub mod Outcomes
pub mod Reports
pub mod Posture
pub mod Allowances
mod Examples
