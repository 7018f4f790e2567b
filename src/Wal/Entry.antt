-- ===== src/Wal/Entry.antt =====
-- The log entries of internal/wal/writer.go: `makeLogEntry` and the methods of `logEntry`.
use logblock.Prelude.{
  ℕ, ◌+◌, ◌-◌, ◌%◌, ◌^◌, Bool, [], ◌∷◌, ◌++◌, if◌then◌else◌, ltb, ◌==◌, Bytes, le, length, take,
  drop,
}
use logblock.Wal.{
  Codec, EntryType, data_entry, trim_entry, footer_entry, entry_code, entry_base_size,
}

-- `headerBuf[:headerSize]` and `data`.
pub record LogEntry : Type 0 where
  pub header_buf : Bytes
  pub body : Bytes
  pub read_off : ℕ

-- `packetSize`
unfoldable pub packet_size : EntryType → ℕ → ℕ
packet_size data_entry len = entry_base_size + (8 + len)
packet_size trim_entry len = entry_base_size + (8 + 8)
packet_size footer_entry len = entry_base_size

-- `headerBuf[4:8]`: the packet size, then the type over its top byte.
unfoldable pub size_and_type : EntryType → ℕ → Bytes
size_and_type t size = take 3 (le 4 (size % 2 ^ 32)) ++ (entry_code t % 16) ∷ []

-- `headerBuf[8:headerSize]`
unfoldable pub payload_header : EntryType → ℕ → ℕ → Bytes
payload_header data_entry offset len = le 8 offset
payload_header trim_entry offset len = le 8 offset ++ le 8 len
payload_header footer_entry offset len = []

module _ (c : Codec) where
  unfoldable pub make_log_entry : EntryType → ℕ → ℕ → Bytes → LogEntry
  make_log_entry t offset len body =
      let rest = size_and_type t (packet_size t len) ++ payload_header t offset len in
      record { header_buf = le 4 (c.crc (rest ++ body)) ++ rest; body = body; read_off = 0 }

-- `Len`
unfoldable pub entry_len : LogEntry → ℕ
entry_len e = length e.header_buf + length e.body

-- `Read` into a buffer of `n` bytes: the bytes, the entry, and whether io.EOF is returned.
unfoldable pub read : LogEntry → ℕ → Bytes × LogEntry × Bool
read e n =
    let head =
      if ltb e.read_off (length e.header_buf) then take n (drop e.read_off e.header_buf) else [] in
    let off1 = e.read_off + length head in
    let tail =
      if ltb (length head) n
      then take (n - length head) (drop (off1 - length e.header_buf) e.body)
      else [] in
    let off2 = off1 + length tail in
    (head ++ tail, record e { read_off = off2 }, off2 == entry_len e)
