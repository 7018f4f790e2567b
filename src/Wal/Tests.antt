-- ===== src/Wal/Tests.antt =====
-- Runs of the log writer and reader of internal/wal on a file in memory, and the theorems at concrete
-- inputs.
use logblock.Prelude.{
  ℕ, zero, suc, ◌+◌, ◌≤◌, ◌<◌, ◌≢◌, ◌≡◌, refl, ap, sym, true, false, Option, none, some, [], ◌∷◌,
  ◌++◌, ◌&&◌, arith, leb, ltb, not, Bytes, length, take, drop, bytes_equal, take_length, add64, slt,
}
use logblock.RangeMap.RadixTree.{RadixTree}
use logblock.RangeMap.SortedTree.{sorted_tree, insert, find, down_from}
use logblock.RangeMap.Extent.{add, remove, remove_items, get_byte_range, overlapping, insert_new}
use logblock.Wal.{
  Codec, LogRecord, Header, IndexEntry, IndexEntryType, invalid_entry, write_entry,
  trim_index_entry,
}
use logblock.Wal.Output.{LogFile}
use logblock.Wal.Entry.{make_log_entry, size_and_type, payload_header, packet_size, entry_len}
use logblock.Wal.Writer.{
  Writer, ok, write_at, write_header, write_at_header, log_entry, index_add, new_writer,
  header_bytes, write_log_entry, write_to,
}
use logblock.Wal.ReadAt.{ReaderAt, end_of_data, read_at_from}
use logblock.Wal.ReadAt.Backed.{or_zero, window}
use logblock.Wal.ReadAt.Loop.{read_all}
use logblock.Wal.ReadAt.Writes.{writes, last_byte, only_writes, Logged, initial, wrote}
use logblock.Wal.ReadAt.Device.{read_at_from-last_byte}
use logblock.Wal.NewReader.{new_reader, opens}
use logblock.Wal.CloseWriter.{close_writer}
use logblock.Wal.Recovery.{IsRecoverable, write_at-IsRecoverable}
use logblock.Wal.Recovery.Start.{started, started-IsRecoverable}
use logblock.Wal.Recovery.Crash.{ends_in_footer}
use logblock.Wal.Recovery.Logs.{crashed_log, opens-torn}

abbrev decode_header : Bytes → Option Header
decode_header (v ∷ b ∷ a ∷ k ∷ []) =
    some (record { version = v; block_size = b; align = a; checksum_type = k })
decode_header _ = none

abbrev type_code : IndexEntryType → ℕ
type_code invalid_entry = 0
type_code write_entry = 1
type_code trim_index_entry = 2

abbrev type_of : ℕ → IndexEntryType
type_of zero = invalid_entry
type_of (suc zero) = write_entry
type_of _ = trim_index_entry

type_round : (t : IndexEntryType) → type_of (type_code t) ≡ t
type_round invalid_entry = refl
type_round write_entry = refl
type_round trim_index_entry = refl

abbrev decode_entry : Bytes → Option IndexEntry
decode_entry (t ∷ l ∷ o ∷ n ∷ []) =
    some (record { type = type_of t; log_offset = l; offset = o; length = n })
decode_entry _ = none

entry_round :
    (e : IndexEntry)
    → decode_entry (type_code e.type ∷ e.log_offset ∷ e.offset ∷ e.length ∷ []) ≡ some e
entry_round e = ground (arith, type_round e.type)

abbrev plain : Codec
plain = record {
  crc = λ b. 7;
  crc_bound = λ b. omega arith;
  marshal_header = λ h. h.version ∷ h.block_size ∷ h.align ∷ h.checksum_type ∷ [];
  unmarshal_header = decode_header;
  marshal_entry = λ e. type_code e.type ∷ e.log_offset ∷ e.offset ∷ e.length ∷ [];
  unmarshal_entry = decode_entry;
  marshal_entry_length = λ e. omega arith;
  unmarshal-marshal_header = λ h. refl;
  unmarshal-marshal_entry = entry_round;
}

abbrev memory : LogFile
memory = record {
  File = Bytes;
  content = λ f. f;
  write = λ f b. (f ++ b, length b, true);
  is_reader_from = false;
  read_from = λ f e. (f ++ (e.header_buf ++ e.body), true);
  write_buffered = λ f b. (f ++ b, true);
  content-write_buffered = λ f b h. refl;
  content-write = λ f b. ap (λ t. f ++ t) (sym (take_length b));
  written_all = λ f b h. refl;
  content-read_from = λ f e start h. refl;
}

abbrev T : RadixTree LogRecord
T = sorted_tree LogRecord

abbrev w0 : Writer plain memory T
w0 = started plain memory T [] refl refl

abbrev hello : Bytes
hello = 104 ∷ 101 ∷ 108 ∷ 108 ∷ 111 ∷ []

w0-IsRecoverable : IsRecoverable plain memory T w0
w0-IsRecoverable = started-IsRecoverable plain memory T [] refl refl

write_at-IsRecoverable_example :
    (w' : Writer plain memory T) × (write_at plain memory T w0 hello 512 ≡ (ok 5, w'))
    × IsRecoverable plain memory T w'
unfolding write_log_entry header_bytes write_to make_log_entry
write_at-IsRecoverable_example =
    write_at-IsRecoverable plain memory T w0 hello 512 w0-IsRecoverable (omega arith) (omega arith)
      (omega arith) (omega arith) refl

-- The log with one write.
abbrev first_write :
    (w' : Writer plain memory T) × (write_at plain memory T w0 hello 512 ≡ (ok 5, w'))
    × IsRecoverable plain memory T w'
unfolding write_log_entry header_bytes write_to make_log_entry
first_write =
    write_at-IsRecoverable plain memory T w0 hello 512 w0-IsRecoverable (omega arith) (omega arith)
      (omega arith) (omega arith) refl

abbrev w1 : Writer plain memory T
w1 = first_write.0

w1-Logged : Logged plain memory T (writes hello 512 ∷ []) w1
unfolding header_bytes
w1-Logged =
    wrote hello 512 5 w1 (initial [] refl refl (omega arith)) (omega arith) (omega arith)
      first_write.1

abbrev file_reader : ReaderAt
file_reader o k = (take k (drop o w1.file), true)

read_at_from-last_byte_example :
    (((x : ℕ) × (510 + 4 ≤ suc x) × (last_byte (writes hello 512 ∷ []) x ≢ none))
      → read_at_from plain memory T w1 file_reader 4 510
        ≡ read_all (window (λ x. or_zero (last_byte (writes hello 512 ∷ []) x)) 510 4) 4)
    × (0 < 4
        → ((x : ℕ) → 510 ≤ x → last_byte (writes hello 512 ∷ []) x ≡ none)
        → read_at_from plain memory T w1 file_reader 4 510
          ≡ record { buf = []; count = 0; status = end_of_data })
read_at_from-last_byte_example =
    read_at_from-last_byte plain memory T w1-Logged file_reader (λ o k h. refl) 4 510 (omega arith)

-- The same log, as a writer that computes.
abbrev w1_run : Writer plain memory T
w1_run = (write_at plain memory T w0 hello 512).1

w1_run-ok : write_at plain memory T w0 hello 512 ≡ (ok 5, w1_run)
unfolding write_at write_header write_at_header log_entry write_log_entry header_bytes write_to
    make_log_entry index_add add remove remove_items get_byte_range overlapping new_writer
    insert_new insert find down_from add64 slt size_and_type payload_header packet_size entry_len
w1_run-ok = refl

w1_run-Logged : Logged plain memory T (writes hello 512 ∷ []) w1_run
unfolding header_bytes
w1_run-Logged =
    wrote hello 512 5 w1_run (initial [] refl refl (omega arith)) (omega arith) (omega arith)
      w1_run-ok

abbrev crashed : Bytes
crashed = crashed_log plain memory T w1_run hello 512 (omega arith) (omega arith) (omega arith) 12

bare_crash : ends_in_footer crashed ≡ false
unfolding ends_in_footer bytes_equal write_at write_header write_at_header log_entry write_log_entry
    header_bytes write_to make_log_entry index_add add remove remove_items get_byte_range
    overlapping new_writer insert_new insert find down_from add64 slt size_and_type payload_header
    packet_size entry_len
bare_crash = refl

opens-torn_example :
    opens (new_reader plain T false crashed (length crashed)).status ≡ not (leb 8 12 && ltb 12 16)
unfolding only_writes
opens-torn_example =
    opens-torn plain memory T w1_run-Logged refl (omega arith) false hello 512 (omega arith)
      (omega arith) (omega arith) 12 (omega arith) bare_crash

-- The log closed
abbrev w2 : Writer plain memory T
w2 = (close_writer plain memory T w1_run).1
