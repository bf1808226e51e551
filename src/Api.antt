-- ===== src/Api.antt =====
-- apps/api: the HTTP API and its Lambda handlers, file by file.
pub mod Result
pub mod Models
pub mod Json
pub mod Dynamo
pub mod World
pub mod Config
pub mod Validation
pub mod Observability
pub mod Jobs
pub mod Translation
pub mod Worker
pub mod Failure
pub mod Main
pub mod Lifecycle
pub mod Fake
mod Tests
