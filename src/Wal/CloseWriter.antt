-- ===== src/Wal/CloseWriter.antt =====
-- `CloseWriter` of internal/wal/writer.go: the footer entry, the index as protobuf messages, and the end that
-- the reader looks for. The writes go through a `bufio.Writer`, and messages are taken to marshal without an
-- error. A nil record, which the iteration starts from, is one with no length.
pub mod Uvarint
pub mod Section
pub mod Reopen
use logblock.Prelude.{
  ℕ, zero, suc, ◌+◌, ◌%◌, ◌/◌, ◌^◌, ◌≡◌, ◌↔◌, Bool, true, false, not, ◌&&◌, [], ◌∷◌, ◌++◌, arith,
  if◌then◌else◌, ltb, ◌==◌, Bytes, le, length, add64, sub64, Comparable,
}
use logblock.RangeMap.{RangeValue}
use logblock.RangeMap.RadixTree.{RadixTree}
use logblock.RangeMap.Extent.Iterate.{iterate}
use logblock.Wal.{
  Codec, LogRecord, IndexEntry, write_entry, trim_index_entry, footer_entry, footer_magic,
}
use logblock.Wal.Entry.{make_log_entry}
use logblock.Wal.Output.{LogFile}
use logblock.Wal.Writer.{Writer, Outcome, ok, err, writer_closed, write_failed}

abbrev pub bool_equal : Bool → Bool → Bool
bool_equal a b = if a then b else not b

-- Records of one log with the same fields are one record.
abbrev pub record_equal : LogRecord → LogRecord → Bool
record_equal a b =
    a.log_offset == b.log_offset
    && a.offset == b.offset
    && a.length == b.length
    && bool_equal a.zero b.zero

pub record_equal_iff : (a b : LogRecord) → (record_equal a b ≡ true) ↔ (a ≡ b)
record_equal_iff a b = (λ h. ground arith, λ e. ground (arith, e))

instance abbrev pub LogRecord-comparable : Comparable LogRecord
LogRecord-comparable = record {
  zero_value = record { log_offset = 0; offset = 0; length = 0; zero = false };
  beq = record_equal;
  beq_iff = record_equal_iff;
}

-- `binary.AppendUvarint` of a number that takes at most `more + 1` bytes
unfoldable pub append_uvarint : ℕ → ℕ → Bytes
append_uvarint zero n = n ∷ []
append_uvarint (suc more) n =
    let rest = append_uvarint more (n / 128) in if ltb n 128 then n ∷ [] else (n % 128 + 128) ∷ rest

-- What the callback makes of a range; a size is an int, which takes nine bytes at most.
unfoldable pub index_entry : RangeValue LogRecord → IndexEntry
index_entry mr =
    if mr.value.zero
    then record { type = trim_index_entry; log_offset = 0; offset = mr.offset; length = mr.length }
    else record {
      type = write_entry;
      log_offset = add64 mr.value.log_offset (sub64 mr.offset mr.value.offset);
      offset = mr.offset;
      length = mr.length;
    }

module _ (c : Codec) where
  unfoldable pub sized_entry : RangeValue LogRecord → Bytes
  sized_entry mr =
      let buf = c.marshal_entry (index_entry mr) in append_uvarint 8 (length buf) ++ buf

  -- The callback, over the bytes that have been written
  unfoldable pub write_entry_of : Bytes → RangeValue LogRecord → Bytes × Bool
  write_entry_of s mr = (s ++ sized_entry mr, true)

  module _ (F : LogFile) (T : RadixTree LogRecord) where
    unfoldable pub index_section : Writer c F T → Bytes
    index_section w = iterate T write_entry_of w.index 0 []

    -- The end of the file
    unfoldable pub footer_end : Bytes → Bytes
    footer_end section = le 4 (length section % 2 ^ 32) ++ (le 4 (c.crc section) ++ footer_magic)

    unfoldable pub footer_bytes : Writer c F T → Bytes
    footer_bytes w =
        (make_log_entry c footer_entry 0 0 []).header_buf
        ++ (index_section w ++ footer_end (index_section w))

    -- `CloseWriter`; `ok 0` is the nil error.
    unfoldable pub close_writer : Writer c F T → Outcome × Writer c F T
    close_writer w =
        let (f, done) = F.write_buffered w.file (footer_bytes w) in
        if not w.is_open
        then (err writer_closed, w)
        else if w.offset == 0
        then (ok 0, w)
        else (if done then ok 0 else err write_failed, record w { file = f; is_open = false })
