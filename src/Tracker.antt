-- ===== src/Tracker.antt =====
-- internal/tracker: the write logs that are written to and flushed.
pub mod Writer
pub mod Reader
