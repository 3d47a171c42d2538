-- ===== src/Telemetry.antt =====
-- The metrics in memory: internal/infra/telemetry/ringbuffer.go and internal/domain/monitoring.
pub mod Ring
pub mod Latest
mod Tests
