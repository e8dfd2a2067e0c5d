-- ===== src/Events.antt =====
-- internal/events/events.go: the event schema is in Types, the writer in Writer.
pub mod Types
pub mod Writer
