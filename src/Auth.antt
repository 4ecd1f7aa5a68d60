-- ===== src/Auth.antt =====
-- The authentication component: users, failed attempts, passwords and sessions
-- (repo/backend/internal/service/auth.go, security and the in-memory store).
pub mod Data
pub mod Unicode
pub mod Password
pub mod Lockout
pub mod Store
pub mod Memory
pub mod Postgres
pub mod Service
mod Tests
