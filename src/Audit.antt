-- ===== src/Audit.antt =====
-- The audit trail and the worker that expires held bookings.
pub mod Trail
pub mod Worker
mod Tests
