-- ===== src/Wal/Output.antt =====
-- The file behind a log writer of internal/wal/writer.go: an `io.Writer` that appends, and that may
-- be an `io.ReaderFrom`. It is a parameter, with the documented behaviour of these interfaces: a
-- call appends a prefix of what it is given, and all of it unless it reports an error.
use logblock.Prelude.{ℕ, ◌≡◌, Bool, true, ◌++◌, Bytes, length, take}
use logblock.Wal.Entry.{LogEntry}

pub record LogFile : Type 1 where
  pub File : Type 0
  pub content : File → Bytes
  -- The file afterwards, the number of bytes written, and whether there was no error.
  pub write : File → Bytes → File × ℕ × Bool
  pub is_reader_from : Bool
  pub read_from : File → LogEntry → File × Bool
  -- `bufio.NewWriter` over the file, writes to it and a `Flush`
  pub write_buffered : File → Bytes → File × Bool
  pub content-write :
      (f : File) (b : Bytes) → content (write f b).0 ≡ content f ++ take (write f b).1 b
  pub written_all : (f : File) (b : Bytes) → (write f b).2 ≡ true → (write f b).1 ≡ length b
  pub content-read_from :
      (f : File) (e : LogEntry)
      → e.read_off ≡ 0
      → (read_from f e).1 ≡ true
      → content (read_from f e).0 ≡ content f ++ (e.header_buf ++ e.body)
  pub content-write_buffered :
      (f : File) (b : Bytes)
      → (write_buffered f b).1 ≡ true
      → content (write_buffered f b).0 ≡ content f ++ b
