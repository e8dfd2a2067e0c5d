-- ===== src/Watcher.antt =====
-- internal/watcher/service.go: the service that turns new mail into rows and events.
pub mod Mail
pub mod Jsonb
pub mod Snippet
pub mod Body
pub mod Scan
pub mod Connection
pub mod Watch
pub mod Run
mod Tests
