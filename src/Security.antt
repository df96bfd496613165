-- ===== src/Security.antt =====
-- crates/lakecat-security/src/lib.rs.
pub mod Actions
pub mod Columns
pub mod Jsonld
pub mod Odrl
pub mod Terms
pub mod Restriction
pub mod Narrowing
pub mod Receipts
pub mod Capabilities
