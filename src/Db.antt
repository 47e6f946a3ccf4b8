-- ===== src/Db.antt =====
-- PostgreSQL as internal/db uses it: the tables of migrations/*.sql, statements and transactions
-- that may fail at every round trip, and the `Scan` of a row into the structs of internal/domain.
pub mod Rows
mod Environment
pub mod Exec
mod Scan
pub mod Preserves
pub mod Stream
pub mod Migrate
pub use Environment.*
unfoldable pub use Scan.*
