-- ===== src/Store/Consistency.antt =====
-- The consistency of the tables, which every operation of internal/db/store.go and
-- internal/db/idempotency.go keeps. The children prove it for the changes and for the statements.
pub mod Rows
pub mod Keeps
pub mod Invariant
pub mod Tables
pub mod Additions
mod Statements
mod Records
pub use Rows.{TaskIsSane, ExecutionIsSane, AttemptIsSane}
pub use Invariant.{IsConsistent}
pub use Statements.{IsConsistent-closed, Reachable-IsConsistent}
