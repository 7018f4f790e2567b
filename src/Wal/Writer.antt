-- ===== src/Wal/Writer.antt =====
-- The writer of internal/wal/writer.go, over the file that the log is appended to. A method takes
-- its locks for as long as it changes what they guard, so a call is one step.

pub mod Appends
use logblock.Prelude.{
  ℕ, suc, ◌+◌, ◌-◌, Bool, true, false, not, Option, none, some, List, [], ◌∷◌, ◌++◌, if◌then◌else◌,
  ltb, leb, ◌==◌, Bytes, le, length, take, drop, add64, sub64, slt,
}
use logblock.RangeMap.{RangeValue}
use logblock.RangeMap.RadixTree.{RadixTree}
use logblock.RangeMap.Extent
use logblock.Wal.{
  Codec, Header, LogRecord, EntryType, data_entry, trim_entry, footer_entry, max_write_size,
  header_magic,
}
use logblock.Wal.Entry.{LogEntry, make_log_entry, entry_len}
use logblock.Wal.Output.{LogFile}

pub data WalError : Type 0 where
  write_too_big writer_closed write_failed end_of_file : WalError

-- What a method returns: a value, an error, or a panic.
pub data Outcome : Type 0 where
  ok : ℕ → Outcome
  err : WalError → Outcome
  panic : Outcome

module _ (c : Codec) (F : LogFile) (T : RadixTree LogRecord) where
  -- `is_open` is `w.w != nil`; `header_done` is what `headerOnce` remembers.
  pub record Writer : Type 0 where
    pub file : F.File
    pub is_open : Bool
    pub offset : ℕ
    pub end : ℕ
    pub header_done : Bool
    pub header_err : Option WalError
    pub index : T.Tree

  unfoldable pub new_writer : F.File → Writer
  new_writer f = record {
    file = f;
    is_open = true;
    offset = 0;
    end = 0;
    header_done = false;
    header_err = none;
    index = T.empty;
  }

  abbrev pub log_header : Header
  log_header = record { version = 1; block_size = 1; align = 1; checksum_type = 1 }

  -- What `writeHeader` passes to `WriteMany`.
  unfoldable pub header_bytes : Bytes
  header_bytes = let buf = c.marshal_header log_header in header_magic ++ (le 4 (length buf) ++ buf)

  unfoldable pub write_header : Writer → Option WalError × Writer
  write_header w =
      if w.header_done
      then (w.header_err, w)
      else if not w.is_open
      then (some writer_closed, record w { header_done = true; header_err = some writer_closed })
      else let (f, n, done) = F.write w.file header_bytes in
        let e : Option WalError = if done then none else some write_failed in
        (e, record w { file = f; offset = n; header_done = true; header_err = e })

  -- `WriteTo`: the header, then the data if there is any.
  unfoldable pub write_to : F.File → LogEntry → F.File × Bool
  write_to f e =
      let (f1, n1, ok1) = F.write f e.header_buf in
      if not ok1
      then (f1, false)
      else if length e.body == 0
      then (f1, true)
      else (let (f2, n2, ok2) = F.write f1 e.body in (f2, ok2))

  unfoldable pub write_log_entry : F.File → LogEntry → F.File × Bool
  write_log_entry f e = if F.is_reader_from then F.read_from f e else write_to f e

  unfoldable pub index_add : Writer → ℕ → ℕ → LogRecord → ℕ → Outcome × Writer
  index_add w off len lr n = elim (Extent.add T w.index off len lr) [
    | none ↦ (panic, w)
    | some index ↦ (
      ok n,
      record w { index = index; end = if slt w.end (add64 off len) then add64 off len else w.end },
    )
  ]

  -- The part of `WriteAt` and `Trim` under `writeLock` and then `indexLock`.
  unfoldable pub log_entry : Writer → LogEntry → ℕ → ℕ → LogRecord → ℕ → Outcome × Writer
  log_entry w e off len lr n =
      if not w.is_open
      then (err writer_closed, w)
      else let (f, done) = write_log_entry w.file e in
        if not done
        then (err write_failed, record w { file = f })
        else index_add (record w { file = f; offset = add64 w.offset (entry_len e) }) off len lr n

  unfoldable pub write_at_header : Option WalError × Writer → Bytes → ℕ → Outcome × Writer
  write_at_header (some e, w) p off = (err e, w)
  write_at_header (none, w) p off =
      let e = make_log_entry c data_entry off (length p) p in
      log_entry w e off (length p)
        (record {
          log_offset = add64 w.offset (length e.header_buf);
          offset = off;
          length = length p;
          zero = false;
        })
        (length p)

  -- `WriteAt`
  unfoldable pub write_at : Writer → Bytes → ℕ → Outcome × Writer
  write_at w p off =
      if length p == 0
      then (ok 0, w)
      else if ltb max_write_size (length p)
      then (err write_too_big, w)
      else write_at_header (write_header w) p off

  unfoldable pub trim_header : Option WalError × Writer → ℕ → ℕ → Outcome × Writer
  trim_header (some e, w) off len = (err e, w)
  trim_header (none, w) off len =
      log_entry w (make_log_entry c trim_entry off len []) off len
        (record { log_offset = 0; offset = off; length = len; zero = true }) 0

  -- `Trim`; `ok 0` is the nil error.
  unfoldable pub trim : Writer → ℕ → ℕ → Outcome × Writer
  trim w off len = if len == 0 then (ok 0, w) else trim_header (write_header w) off len

  -- `Size` and `LogSize`
  unfoldable pub size : Writer → ℕ
  size w = w.end

  unfoldable pub log_size : Writer → ℕ
  log_size w = w.offset

  -- `NextData`; `none` is io.EOF.
  unfoldable pub next_data : Writer → ℕ → Option ℕ
  next_data w off = Extent.next_key T w.index off

  unfoldable pub next_hole : Writer → ℕ → ℕ
  next_hole w off = Extent.next_empty T w.index off
