-- ===== src/Tests.antt =====
-- Runs of the model at concrete inputs, and the theorems at such inputs.
pub mod Model
pub mod Rules
pub mod Sample
pub mod Commits
pub mod Lifecycle
pub mod Rows
pub mod Services
pub mod Profiles
