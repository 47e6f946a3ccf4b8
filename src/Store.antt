-- ===== src/Store.antt =====
-- internal/db/store.go and internal/db/idempotency.go: the operations of `Store`.
pub mod Sql
pub mod Executions
pub mod Attempts
pub mod Outbox
pub mod Idempotency
pub mod Snapshot
pub mod Calls
pub mod Consistency
pub mod Numbering
