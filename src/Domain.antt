-- ===== src/Domain.antt =====
-- The data that the parts of the engine share (internal/domain/models.go), with the JSON documents
-- of `encoding/json` and the errors that the code tells apart.
mod Documents
mod Errors
mod Models
mod Unmarshal
pub use Models.*
unfoldable pub use Documents.*
unfoldable pub use Errors.*
unfoldable pub use Unmarshal.*
