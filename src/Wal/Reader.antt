-- ===== src/Wal/Reader.antt =====
-- The reader of internal/wal/reader.go: `readHeader`, the scan of the entries in `NewReader`, and
-- the index that a closed log ends with. The `bufio.Reader` is the list of bytes that are left, over
-- a file whose reads fail only at its end.
pub mod Copy
pub mod Packets
use logblock.Prelude.{
  ℕ, zero, suc, ◌+◌, ◌-◌, ◌%◌, ◌^◌, Bool, true, false, not, Option, none, some, List, [], ◌∷◌, ◌++◌,
  if◌then◌else◌, ltb, leb, ◌==◌, Bytes, le, of_le, length, take, drop, get_or, add64, sub64, slt,
  bytes_equal,
}
use logblock.RangeMap.RadixTree.{RadixTree}
use logblock.RangeMap.Extent
use logblock.Wal.{
  Codec, Header, IndexEntry, LogRecord, invalid_entry, write_entry, trim_index_entry, header_magic,
  footer_magic, entry_base_size,
}

-- How `NewReader` ends: without an error, with one of its errors, or with a panic. `end_of_file` is
-- io.EOF and `unexpected_eof` is io.ErrUnexpectedEOF.
pub data Status : Type 0 where
  done unexpected_eof end_of_file corrupted_log invalid_magic buffer_full bad_header panic : Status

-- 64 * 1024
abbrev pub read_buf_size : ℕ
read_buf_size = 65536

pub data HeaderResult : Type 0 where
  header_ok : ℕ → Header → Bytes → HeaderResult
  header_err : Status → HeaderResult

module _ (c : Codec) where
  unfoldable pub parse_header : ℕ → Bytes → HeaderResult
  parse_header size rest =
      if ltb read_buf_size size
      then header_err buffer_full
      else if ltb (length rest) size
      then header_err end_of_file
      else elim (c.unmarshal_header (take size rest)) [
        | none ↦ header_err bad_header
        | some h ↦ header_ok (8 + (4 + size)) h (drop size rest)
      ]

  -- `readHeader`: the bytes read, the header, and what is left.
  unfoldable pub read_header : Bytes → HeaderResult
  read_header rest =
      if ltb (length rest) 8
      then header_err end_of_file
      else if not (bytes_equal (take 8 rest) header_magic)
      then header_err invalid_magic
      else let rest1 = drop 8 rest in
        if ltb (length rest1) 4
        then header_err end_of_file
        else parse_header (of_le (take 4 rest1)) (drop 4 rest1)

-- The inner loop of `NewReader`: `n` bytes in buffers of at most `size`, handed to the checksum.
unfoldable pub copy_bytes : ℕ → ℕ → ℕ → Bytes → Option (Bytes × Bytes)
copy_bytes zero size n rest = if n == 0 then some ([], rest) else none
copy_bytes (suc fuel) size n rest =
    let peek = if ltb size n then size else n in
    let more = copy_bytes fuel size (n - peek) (drop peek rest) in
    if n == 0
    then some ([], rest)
    else if ltb (length rest) peek
    then none
    else elim more [ none ↦ none | some (b, left) ↦ some (take peek rest ++ b, left) ]

-- What `NewReader` finds at the head of the rest of the log.
pub data Packet : Type 0 where
  log_end : Packet
  footer : Packet
  stop : Status → Packet
  packet : (is_data : Bool) (offset len size : ℕ) (rest : Bytes) → Packet

module _ (c : Codec) where
  -- The checksum of the packet, once its bytes are read.
  unfoldable pub check_body : Bytes → Bool → ℕ → ℕ → ℕ → Option (Bytes × Bytes) → Packet
  check_body entry is_data offset len size none = stop unexpected_eof
  check_body entry is_data offset len size (some (b, left)) =
      if c.crc (drop 4 entry ++ b) == of_le (take 4 entry)
      then packet is_data offset len size left
      else stop corrupted_log

  -- `packetSize - entryBaseSize` in uint32, and the loop.
  unfoldable pub read_body : Bytes → Bool → ℕ → ℕ → ℕ → Bytes → Packet
  read_body entry is_data offset len size rest =
      let n = (size + 2 ^ 32 - 8) % 2 ^ 32 in
      check_body entry is_data offset len size (copy_bytes n read_buf_size n rest)

  -- The switch on the type. A type that is none of the three is copied and skipped.
  unfoldable pub read_typed : Bytes → ℕ → ℕ → Bytes → Packet
  read_typed entry type size rest =
      if type == 0
      then (if ltb (length rest) 8
          then stop end_of_file
          else read_body entry true (of_le (take 8 rest)) (sub64 (sub64 size entry_base_size) 8)
              size rest)
      else if type == 1
      then stop panic
      else if type == 2
      then footer
      else read_body entry false 0 0 size rest

  unfoldable pub next_packet : Bytes → Packet
  next_packet [] = log_end
  next_packet (b ∷ rest) =
      if ltb (length (b ∷ rest)) entry_base_size
      then stop unexpected_eof
      else let entry = take entry_base_size (b ∷ rest) in
        read_typed entry (get_or entry 7 0) (of_le (take 3 (drop 4 entry) ++ 0 ∷ []))
          (drop entry_base_size (b ∷ rest))

  module _ (T : RadixTree LogRecord) where
    -- The parts of `Reader` that the scan fills, and how it ended.
    pub record Loaded : Type 0 where
      pub index : T.Tree
      pub end : ℕ
      pub status : Status

    unfoldable pub max_end : ℕ → ℕ → ℕ → ℕ
    max_end end off len = if slt end (add64 off len) then add64 off len else end

    -- `loadLoop`; `log_off` is the offset of the rest in the log.
    unfoldable pub load_loop : ℕ → Bytes → ℕ → T.Tree → ℕ → Loaded
    load_loop zero rest log_off index end = record { index = index; end = end; status = panic }
    load_loop (suc fuel) rest log_off index end = elim (next_packet rest) [
      | log_end ↦ record { index = index; end = end; status = done }
      | footer ↦ record { index = index; end = end; status = done }
      | stop s ↦ record { index = index; end = end; status = s }
      | packet is_data off len size left ↦ elim is_data [
        | false ↦ load_loop fuel left (add64 log_off size) index end
        | true ↦
            elim (Extent.add T index off len (record {
              log_offset = add64 log_off 16;
              offset = off;
              length = len;
              zero = false;
            })) [
              | none ↦ record { index = index; end = end; status = panic }
              | some index' ↦ load_loop fuel left (add64 log_off size) index' (max_end end off len)
            ]
      ]
    ]
