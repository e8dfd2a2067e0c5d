-- ===== src/Api.antt =====
-- internal/api: the responses in Response, the middleware in Middleware, the handlers of
-- internal/api/handlers in a module for each of its files.
pub mod Response
pub mod Query
pub mod Middleware
pub mod AuthHandler
pub mod Folders
pub mod EventLog
pub mod Messages
pub mod Search
pub mod Admin
pub mod Router
pub mod Logging
mod Tests
