-- ===== src/Core.antt =====
-- crates/lakecat-core/src/lib.rs
pub mod Names
pub mod Keys
pub mod Parse
