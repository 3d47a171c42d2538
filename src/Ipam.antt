-- ===== src/Ipam.antt =====
-- IPv4 addresses of pools: internal/app/ipam/service.go, internal/infra/memory/ipam_repo.go.
pub mod Search
pub mod Free
pub mod Allocations
pub mod Unique
pub mod Service
pub mod Fresh
pub mod Blocked
mod Tests
