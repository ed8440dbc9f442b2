-- ===== src/Users.antt =====
-- Login accounts: the table, the service over it, and what is proved of both.
pub mod Store
pub mod Service
pub mod Tables
pub mod Statements
pub mod Keeps
pub mod Examples
pub mod Admins
pub mod History
pub mod Refusals
pub mod Logins
