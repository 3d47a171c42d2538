-- ===== src/Auth.antt =====
-- internal/app/auth/service.go: sessions and the rotation of their refresh tokens.
pub mod Sessions
pub mod Family
pub mod Rotation
mod Tests
