-- ===== src/Memory.antt =====
-- crates/lakecat-store/src/memory.rs: the catalog store in memory, and what its operations keep.
pub mod State
pub mod Namespaces
pub mod Tables
pub mod Commits
pub mod Rename
pub mod SoftDeletes
pub mod Views
pub mod Management
pub mod Profiles
pub mod Grants
pub mod Policies
pub mod Outbox
pub mod Steps
pub mod Invariant
