-- ===== src/Booking/Postgres.antt =====
-- repo/backend/internal/repository/postgres/workflow_store.go: the booking repository on Postgres.
pub mod Tables
pub mod Detect
pub mod Rows
pub mod Methods
pub mod Reserve
pub mod Free
pub mod Exclusion
pub mod Writes
pub mod Kept
pub mod History
pub mod Race
pub mod Locked
pub mod Twice
pub mod Spelling
pub mod Outcomes
