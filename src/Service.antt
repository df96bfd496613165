-- ===== src/Service.antt =====
-- The pure parts of crates/lakecat-service.
pub mod Namespaces
pub mod Paging
pub mod Outbox
