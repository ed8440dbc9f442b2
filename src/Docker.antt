-- ===== src/Docker.antt =====
-- The Docker client's own logic.
pub mod Guard
mod Examples
