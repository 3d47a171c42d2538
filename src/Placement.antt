-- ===== src/Placement.antt =====
-- internal/domain/placement and internal/app/scheduler: the choice of a node for an instance.
pub mod Scheduler
pub mod Fits
mod Tests
