-- ===== src/Billing.antt =====
-- Plans and tenant quotas: internal/domain/billing/quota.go, internal/app/billing/quota.go and the
-- in-memory repositories of internal/infra/memory/billing_repo.go that the quota engine uses.
pub mod Quota
pub mod Repo
pub mod Engine
pub mod Reserve
pub mod Rollback
pub mod Release
pub mod Limits
pub mod Stale
pub mod Kept
mod Tests
