-- ===== src/Api.antt =====
-- The HTTP interface: repo/backend/internal/api.
pub mod Http
pub mod Guard
pub mod Router
pub mod Booking
pub mod Tests
