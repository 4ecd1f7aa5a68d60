-- ===== src/Booking/Tests.antt =====
-- The booking component on concrete repositories: runs of its operations, and its theorems applied.
pub mod Samples
mod Holds
mod Moves
mod Slots
pub mod Postgres
