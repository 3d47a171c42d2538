-- ===== src/Migration.antt =====
-- internal/domain/migration, internal/app/migration: the move of an instance to another node.
pub mod Repo
pub mod Execute
pub mod Wire
pub mod Records
pub mod Outcome
mod Tests
