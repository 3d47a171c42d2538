-- ===== src/RateLimit.antt =====
-- The request limiter: internal/domain/ratelimit, internal/infra/memory/ratelimit_repo.go and
-- internal/app/ratelimit/service.go.
pub mod Limiter
pub mod Window
mod Tests
