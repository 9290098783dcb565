-- ===== src/Store.antt =====
-- packages/persistence/src/workforce_persistence: the tables (Store/Rows), the audit log
-- (Store/Audit) and the outbox (Store/Outbox).
mod Rows
pub mod Audit
pub mod Outbox
pub use Rows.*
