-- ===== src/Booking.antt =====
-- The booking component: repo/backend/internal/model/booking.go, service/booking.go and the in-memory
-- booking repository.
pub mod Data
pub mod Store
pub mod Conflict
pub mod Memory
pub mod Postgres
pub mod Service
pub mod Tests
