-- ===== src/Job.antt =====
-- The durable job queue: internal/domain/job, the in-memory repository
-- internal/infra/memory/job_repo.go and the engine internal/app/job/engine.go.
pub mod Types
pub mod Store
pub mod Listing
pub mod Backoff
pub mod Delays
pub mod World
pub mod Leases
pub mod Claims
pub mod Invariant
pub mod Engine
pub mod Worker
pub mod Marks
pub mod System
pub mod Ticks
pub mod Finishes
pub mod Endings
pub mod Pages
pub mod Recovery
pub mod Isolation
mod Tests
