-- ===== src/Wal/ReadAt/Writes.antt =====
-- Histories of writes and trims of a log (internal/wal/writer.go), and what its index shows after them.
use logblock.Prelude.{
  ℕ, ◌+◌, ◌-◌, ◌≤◌, ◌<◌, ◌^◌, ◌≡◌, Bool, true, false, Option, none, some, List, [], ◌∷◌, ◌++◌,
  arith, if◌then◌else◌, Bytes, length, get_or, add64,
}
use logblock.RangeMap.RadixTree.{RadixTree}
use logblock.RangeMap.Spec.{in_range}
use logblock.RangeMap.Extent
use logblock.Wal.{Codec, LogRecord, trim_entry, max_write_size}
use logblock.Wal.Entry.{LogEntry, make_log_entry, entry_len, size_and_type, payload_header}
use logblock.Wal.Output.{LogFile}
use logblock.Wal.Writer.{
  Writer, ok, header_bytes, write_at, write_at_header, trim, trim_header, log_entry, index_add,
  write_log_entry,
}
use logblock.Wal.Reader.{max_end}
use logblock.Wal.Recovery.{written, write_header-done}
use logblock.Wal.Recovery.Start.{started}
use logblock.Wal.ReadAt.Backed.{shown, IsBacked}

pub data LogOp : Type 0 where
  writes : Bytes → ℕ → LogOp
  trims : ℕ → ℕ → LogOp

-- What operations, the latest first, have put at an offset of the device
unfoldable pub last_byte : List LogOp → ℕ → Option ℕ
last_byte [] x = none
last_byte (writes p off ∷ ops) x =
    if in_range off (length p) x then some (get_or p (x - off) 0) else last_byte ops x
last_byte (trims off len ∷ ops) x = if in_range off len x then some 0 else last_byte ops x

-- No trims
unfoldable pub only_writes : List LogOp → Bool
only_writes [] = true
only_writes (writes p off ∷ ops) = only_writes ops
only_writes (trims off len ∷ ops) = false

module _ (c : Codec) (F : LogFile) (T : RadixTree LogRecord) where
  -- Logs with their header, and what has been done to them without an error; sizes stay below 2^63.
  pub data Logged : List LogOp → Writer c F T → Type 0 where
    initial :
        (f : F.File) (blank : F.content f ≡ []) (done : (F.write f (header_bytes c F T)).2 ≡ true)
        → length (header_bytes c F T) < 2 ^ 63
        → Logged [] (started c F T f blank done)
    wrote :
        {ops : List LogOp} {w : Writer c F T} (p : Bytes) (off n : ℕ) (w' : Writer c F T)
        → Logged ops w
        → off + length p < 2 ^ 63
        → w.offset + 16 + length p < 2 ^ 63
        → write_at c F T w p off ≡ (ok n, w')
        → Logged (writes p off ∷ ops) w'
    trimmed :
        {ops : List LogOp} {w : Writer c F T} (off len n : ℕ) (w' : Writer c F T)
        → Logged ops w
        → off + len < 2 ^ 63
        → w.offset + 24 < 2 ^ 63
        → trim c F T w off len ≡ (ok n, w')
        → Logged (trims off len ∷ ops) w'

  pub record IsReadable (ops : List LogOp) (w : Writer c F T) : Type 0 where
    pub header_ok : (w.header_done ≡ true) × (w.header_err ≡ none)
    pub opened : w.is_open ≡ true
    pub offset : w.offset ≡ length (F.content w.file)
    pub backed : IsBacked T w.index (F.content w.file)
    pub head : (body : Bytes) × (F.content w.file ≡ header_bytes c F T ++ body)
    pub untrimmed :
        only_writes ops ≡ true
        → (x : ℕ) (lr : LogRecord) → Extent.get T w.index x ≡ some lr
        → lr.zero ≡ false
    pub shows : (x : ℕ) → shown T w.index (F.content w.file) x ≡ last_byte ops x

  module _ (w : Writer c F T) (off len : ℕ) where
    abbrev pub trim_log_entry : LogEntry
    trim_log_entry = make_log_entry c trim_entry off len []

    abbrev pub trim_written : F.File × Bool
    trim_written = write_log_entry c F T w.file trim_log_entry

    abbrev pub trim_record : LogRecord
    trim_record = record { log_offset = 0; offset = off; length = len; zero = true }

    abbrev pub after_trim : T.Tree → Writer c F T
    after_trim index = record w {
      file = trim_written.0;
      offset = add64 w.offset 24;
      index = index;
      end = max_end c T w.end off len;
    }

    pub trim_lengths : (length trim_log_entry.header_buf ≡ 24) × (entry_len trim_log_entry ≡ 24)
    unfolding make_log_entry size_and_type payload_header entry_len
    trim_lengths = omega arith

    pub trim-eq :
        (index : T.Tree)
        → w.header_done ≡ true
        → w.header_err ≡ none
        → w.is_open ≡ true
        → 0 < len
        → Extent.add T w.index off len trim_record ≡ some index
        → trim_written.1 ≡ true
        → trim c F T w off len ≡ (ok 0, after_trim index)
    unfolding trim trim_header log_entry index_add max_end
    trim-eq index h e opened pos added done =
        ground (arith, write_header-done c F T w [] off, trim_lengths)

    pub trim_refused :
        (n : ℕ) (w' : Writer c F T)
        → w.header_done ≡ true
        → w.header_err ≡ none
        → w.is_open ≡ true
        → 0 < len
        → trim_written.1 ≡ false
        → trim c F T w off len ≡ (ok n, w')
        → ⊥
    unfolding trim trim_header log_entry
    trim_refused n w' h e opened pos failed eq = ground (arith, write_header-done c F T w [] off)

    pub write_at_refused :
        (p : Bytes) (n : ℕ) (w' : Writer c F T)
        → w.header_done ≡ true
        → w.header_err ≡ none
        → w.is_open ≡ true
        → 0 < length p
        → length p ≤ max_write_size
        → (written c F T w p off).1 ≡ false
        → write_at c F T w p off ≡ (ok n, w')
        → ⊥
    unfolding write_at write_at_header log_entry
    write_at_refused p n w' h e opened pos small failed eq =
        ground (arith, write_header-done c F T w p off)
