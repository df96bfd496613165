-- ===== src/Records.antt =====
-- crates/lakecat-store/src/records.rs and the validation helpers of helpers.rs
pub mod Types
pub mod External
pub mod Evidence
pub mod Metadata
pub mod Tables
pub mod Events
pub mod Policies
pub mod Locations
pub mod Views
pub mod Profiles
pub mod Management
pub mod Properties
pub mod Receipts
pub mod Documented
