-- ===== src/Security.antt =====
-- repo/backend/internal/security: the session tokens. Passwords and the lockout stand with the auth
-- component.
pub mod Token
pub mod Trust
pub mod Tests
