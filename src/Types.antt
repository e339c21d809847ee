-- ===== src/Types.antt =====
-- The data of the runservice: services/runservice/types and services/types/object.go.
mod Meta
mod State
mod Definition
mod Execution
pub use Meta.*
unfoldable pub use State.*
pub use Definition.*
pub use Execution.*
