-- ===== src/Audit.antt =====
-- The tamper-evident trail: internal/domain/audit/audit.go, the audit repository of
-- internal/infra/memory/memory_repos.go and internal/app/audit/service.go.
pub mod Log
pub mod Trail
pub mod Chain
pub mod Service
mod Tests
