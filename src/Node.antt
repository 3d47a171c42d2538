-- ===== src/Node.antt =====
-- internal/domain/node, internal/infra/memory/node_repo.go and internal/app/nodehealth: the hypervisor
-- nodes and the supervision of their heartbeats.
pub mod Types
pub mod Gateway
pub mod Repo
pub mod Service
pub mod Supervisor
pub mod Views
pub mod Health
pub mod Writes
pub mod Revocation
pub mod Race
mod Tests
