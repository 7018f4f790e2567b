-- ===== src/Wal/CloseWriter/Reopen/Seeks.antt =====
-- NextData and NextHole of a log (internal/wal) after it has been closed and opened again.
use logblock.RangeMap.RadixTree.{RadixTree}
use logblock.Wal.Writer.{Writer}
