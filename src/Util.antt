-- ===== src/Util.antt =====
-- internal/util: the wait barrier that tracker/writer.go and tracker/reader.go wait on, and the runner of one
-- function at a time. Each part under a lock is one step; the goroutines interleave in any order.
pub mod WaitBarrier
pub mod OneRunner
