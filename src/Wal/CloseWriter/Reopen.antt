-- ===== src/Wal/CloseWriter/Reopen.antt =====
-- A log that `CloseWriter` of internal/wal/writer.go has closed, and what `NewReader` of internal/wal/reader.go
-- loads from its index.
pub mod Ranges
pub mod Footer
pub mod Loads
pub mod Opened
pub mod Seeks
