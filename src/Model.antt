-- ===== src/Model.antt =====
-- backend/model: the enumerations, the entities and the sentinel errors.
mod Errors
mod Enums
mod Entities
pub mod Json
unfoldable pub use Errors.*
unfoldable pub use Enums.*
unfoldable pub use Entities.*
