-- ===== src/Ingestion.antt =====
-- The ingestion component (repo/backend/internal/service/ingestion.go).
pub mod Data
pub mod Pool
pub mod Limit
pub mod Text
pub mod Bot
mod Tests
