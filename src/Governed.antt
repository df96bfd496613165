-- ===== src/Governed.antt =====
-- Governed scan proofs: crates/lakecat-core/src/governed_scan.rs and governed_scan/, and the grants
-- behind them of crates/lakecat-store/src/governed_scan.rs.
pub mod Checks
pub mod Proofs
pub mod Issued
pub mod Grants
