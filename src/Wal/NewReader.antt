-- ===== src/Wal/NewReader.antt =====
-- `readIndex` and `NewReader` of internal/wal/reader.go, and the part of `NewWriteLogFromReader` of
-- internal/block/write_log.go that decides which of its errors are tolerated.
use logblock.Prelude.{
  ℕ, zero, suc, ◌+◌, ◌-◌, ◌*◌, ◌%◌, ◌^◌, Bool, true, false, not, Option, none, some, [], ◌∷◌,
  if◌then◌else◌, ltb, leb, ◌==◌, ◌&&◌, ◌||◌, Bytes, of_le, length, take, drop, bytes_equal,
}
use logblock.RangeMap.RadixTree.{RadixTree}
use logblock.RangeMap.Extent
use logblock.Wal.{
  Codec, IndexEntry, LogRecord, invalid_entry, write_entry, trim_index_entry, footer_magic,
}
use logblock.Wal.Reader.{
  read_buf_size, Status, done, unexpected_eof, end_of_file, corrupted_log, panic, header_ok,
  header_err, read_header, Loaded, load_loop, max_end,
}

-- `binary.ReadUvarint`: the value and what is left, io.EOF before the first byte, or an error.
pub data Uvarint : Type 0 where
  value : ℕ → Bytes → Uvarint
  at_end : Uvarint
  malformed : Uvarint

unfoldable pub read_uvarint_from : ℕ → ℕ → ℕ → Bytes → Uvarint
read_uvarint_from zero i x rest = malformed
read_uvarint_from (suc fuel) i x [] = if i == 0 then at_end else malformed
read_uvarint_from (suc fuel) i x (b ∷ rest) =
    let more = read_uvarint_from fuel (i + 1) (x + (b % 128) * 128 ^ i) rest in
    if ltb b 128
    then (if i == 9
        then (if ltb 1 b then malformed else value (x + b * 128 ^ i) rest)
        else value (x + b * 128 ^ i) rest)
    else more

-- At most ten bytes encode a uint64.
unfoldable pub read_uvarint : Bytes → Uvarint
read_uvarint rest = read_uvarint_from 10 0 0 rest

unfoldable pub is_panic : Status → Bool
is_panic panic = true
is_panic _ = false

module _ (c : Codec) (T : RadixTree LogRecord) where
  -- `none` is an error of `readIndex`; the status is done, or panic where the loop stopped at one.
  abbrev pub Indexed : Type 0
  Indexed = Option (Loaded c T)

  unfoldable pub add_indexed : IndexEntry → Loaded c T → Indexed
  add_indexed e l = elim e.type [
    | write_entry ↦
        elim (Extent.add T l.index e.offset e.length (record {
          log_offset = e.log_offset;
          offset = e.offset;
          length = e.length;
          zero = false;
        })) [
          | none ↦ some (record l { status = panic })
          | some index' ↦
              some (record l { index = index'; end = max_end c T l.end e.offset e.length })
        ]
    | trim_index_entry ↦ none
    | invalid_entry ↦ none
  ]

  -- The rest of the loop after an entry, which is not reached after a panic
  unfoldable pub after_entry : (Loaded c T → Indexed) → Loaded c T → Indexed
  after_entry next l = let go = next l in if is_panic l.status then some l else go

  -- The loop of `readIndex` over the section. `Peek` fails for more than the buffer holds.
  unfoldable pub index_loop : ℕ → Bytes → Loaded c T → Indexed
  index_loop zero rest l = none
  index_loop (suc fuel) rest l = elim (read_uvarint rest) [
    | at_end ↦ some l
    | malformed ↦ none
    | value size left ↦ elim (ltb read_buf_size size || ltb (length left) size) [
      | true ↦ none
      | false ↦ elim (c.unmarshal_entry (take size left)) [
        | none ↦ none
        | some e ↦ elim (add_indexed e l) [
          | none ↦ none
          | some l' ↦ after_entry (index_loop fuel (drop size left)) l'
        ]
      ]
    ]
  ]

  unfoldable pub empty_index : Loaded c T
  empty_index = record { index = T.empty; end = 0; status = done }

  unfoldable pub read_section : Bytes → ℕ → Indexed
  read_section section crc = elim (index_loop (suc (length section)) section empty_index) [
    | none ↦ none
    | some l ↦ if c.crc section == crc || is_panic l.status then some l else none
  ]

  -- `readIndex` of a file of `size` bytes with the content `log`. With `eof`, ReadAt of the file gives io.EOF also
  -- with all the bytes where it reads up to the end, as io.ReaderAt allows.
  unfoldable pub read_index : Bool → Bytes → ℕ → Indexed
  read_index eof log size =
      let footer_end = take 16 (drop (size - 16) log) in
      let footer_size = of_le (take 4 footer_end) in
      if ltb size 16
      then none
      else if ltb (length footer_end) 16
      then none
      else if eof && leb (length log) size
      then none
      else if not (bytes_equal (drop 8 footer_end) footer_magic)
      then none
      else if ltb (size - 16) footer_size
      then none
      else read_section (take footer_size (drop (size - 16 - footer_size) log))
          (of_le (take 4 (drop 4 footer_end)))

  unfoldable pub failed : Status → Loaded c T
  failed s = record { index = T.empty; end = 0; status = s }

  -- The scan, if there is no index to load.
  unfoldable pub scan : ℕ → Bytes → Indexed → Loaded c T
  scan n rest none = load_loop c T (suc (length rest)) rest n T.empty 0
  scan n rest (some l) = l

  -- `NewReader` of a file with the content `log`. io.EOF in the header is reported as unexpected.
  unfoldable pub new_reader : Bool → Bytes → ℕ → Loaded c T
  new_reader eof log size = elim (read_header c log) [
    | header_err s ↦ failed (elim s [ end_of_file ↦ unexpected_eof | other ↦ other ])
    | header_ok n h rest ↦ scan n rest (if ltb 0 size then read_index eof log size else none)
  ]

-- `NewWriteLogFromReader` opens the log in spite of these.
unfoldable pub opens : Status → Bool
opens done = true
opens unexpected_eof = true
opens corrupted_log = true
opens _ = false
