-- ===== src/Wal/ReadableLog.antt =====
-- `ReadableLog` of internal/wal/readable_log.go, whose file is a field of its writer here, and the methods of
-- the reader of internal/wal/reader.go that ask its index.
use logblock.Prelude.{ℕ, Option, Bytes}
use logblock.RangeMap.RadixTree.{RadixTree}
use logblock.RangeMap.Extent
use logblock.Wal.{Codec, LogRecord}
use logblock.Wal.Output.{LogFile}
use logblock.Wal.Writer
use logblock.Wal.Reader.{Loaded}
use logblock.Wal.ReadAt.{LogRead, ReaderAt, read_at_from}
use logblock.Wal.CloseWriter

module _ (c : Codec) (T : RadixTree LogRecord) where
  unfoldable pub reader_size : Loaded c T → ℕ
  reader_size r = r.end

  -- `none` is io.EOF.
  unfoldable pub reader_next_data : Loaded c T → ℕ → Option ℕ
  reader_next_data r off = Extent.next_key T r.index off

  unfoldable pub reader_next_hole : Loaded c T → ℕ → ℕ
  reader_next_hole r off = Extent.next_empty T r.index off

module _ (c : Codec) (F : LogFile) (T : RadixTree LogRecord) where
  -- The content of the file is read through `read_file`.
  pub record ReadableLog : Type 0 where
    pub read_file : F.File → ReaderAt
    pub log_writer : Writer.Writer c F T

  unfoldable pub new_readable_log : (F.File → ReaderAt) → F.File → ReadableLog
  new_readable_log reads lf = record { read_file = reads; log_writer = Writer.new_writer c F T lf }

  unfoldable pub written : ReadableLog → ℕ
  written l = Writer.log_size c F T l.log_writer

  unfoldable pub write_at : ReadableLog → Bytes → ℕ → Writer.Outcome × ReadableLog
  write_at l p off =
      let (o, w) = Writer.write_at c F T l.log_writer p off in (o, record l { log_writer = w })

  unfoldable pub trim : ReadableLog → ℕ → ℕ → Writer.Outcome × ReadableLog
  trim l off len =
      let (o, w) = Writer.trim c F T l.log_writer off len in (o, record l { log_writer = w })

  unfoldable pub close_writer : ReadableLog → Writer.Outcome × ReadableLog
  close_writer l =
      let (o, w) = CloseWriter.close_writer c F T l.log_writer in (o, record l { log_writer = w })

  unfoldable pub read_at : ReadableLog → ℕ → ℕ → LogRead
  read_at l len off = read_at_from c F T l.log_writer (l.read_file l.log_writer.file) len off

  unfoldable pub next_data : ReadableLog → ℕ → Option ℕ
  next_data l off = Writer.next_data c F T l.log_writer off

  unfoldable pub next_hole : ReadableLog → ℕ → ℕ
  next_hole l off = Writer.next_hole c F T l.log_writer off
