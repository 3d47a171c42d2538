-- ===== src/Compute.antt =====
-- internal/app/compute: the life of an instance, its quota, and the commands to its node.
pub mod Instance
pub mod Repo
pub mod Request
pub mod Create
pub mod Service
pub mod Guest
pub mod Writes
pub mod Sides
pub mod Consistent
pub mod Calls
pub mod Stages
pub mod Accounts
pub mod Outcome
pub mod Deletion
pub mod Unchanged
mod Tests
