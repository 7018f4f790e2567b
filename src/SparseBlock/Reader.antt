-- ===== src/SparseBlock/Reader.antt =====
-- The `Reader` of internal/sparseblock/reader.go over an `io.ReaderAt`, which is a parameter as is the protobuf
-- message of the header. Sizes and offsets are not negative; an int64 is its bit pattern.
use logblock.Prelude.{
  ℕ, zero, suc, ◌+◌, ◌*◌, ◌/◌, ◌%◌, ◌^◌, Bool, not, ◌&&◌, ◌||◌, Option, none, some, List, [], ◌∷◌,
  if◌then◌else◌, ltb, slt, ◌==◌, add64, Bytes, bytes_equal, of_le, length, take, drop, get_elem?,
}
use logblock.SparseBlock.{
  magic, RangeEntry, BlockEntry, unmarshal_range, unmarshal_block, entry_length,
}

pub data ReadStatus : Type 0 where
  done eof failed : ReadStatus

-- `pb.Header`
pub record Header : Type 0 where
  pub version : ℕ
  pub block_size : ℕ
  pub num_range_entries : ℕ
  pub range_entry_size : ℕ
  pub num_block_entries : ℕ
  pub block_entry_size : ℕ
  pub total_blocks : ℕ
  pub total_data_blocks : ℕ
  pub end_block : ℕ

pub data LoadError : Type 0 where
  read_error : ReadStatus → LoadError
  invalid_magic unmarshal_error unsupported_version invalid_block_size : LoadError

-- A result, an error, or a panic
pub data Result (A : Type 0) : Type 0 where
  ok : A → Result A
  err : LoadError → Result A
  panic : Result A

-- `readerIndexEntry`; all entries are of data.
pub record ReaderIndexEntry : Type 0 where
  pub offset : ℕ
  pub length : ℕ
  pub data_offset : ℕ
  pub range_index : ℕ
  pub entry_index : ℕ

-- `Contains`
unfoldable pub entry_contains : ReaderIndexEntry → ℕ → Bool
entry_contains e off = not (slt off e.offset) && slt off (add64 e.offset e.length)

-- `Reader` without its `io.ReaderAt`
pub record Reader : Type 0 where
  pub header : Header
  pub data_offset : ℕ
  pub ranges : List RangeEntry
  pub entry_buf : Bytes

unfoldable pub mul64 : ℕ → ℕ → ℕ
mul64 a b = (a * b) % 2 ^ 64

-- `Size`, `LiveSize` and `DataSize`
unfoldable pub size : Reader → ℕ
size r = mul64 r.header.end_block r.header.block_size

unfoldable pub live_size : Reader → ℕ
live_size r = mul64 r.header.total_blocks r.header.block_size

-- The loop over the ranges of `readIndex`; `none` is a slice out of bounds.
unfoldable pub unmarshal_ranges : ℕ → ℕ → ℕ → Bytes → Option (List RangeEntry)
unmarshal_ranges zero entry_size entry_count buf = some []
unmarshal_ranges (suc n) entry_size entry_count buf =
    if ltb (length buf) entry_size || ltb entry_size 7 || ltb (length buf) 16
    then none
    else let re = unmarshal_range buf (record {
      start_offset = 0;
      data_offset = 0;
      num_entries = 0;
      first_entry_index = entry_count;
    }) in
      elim (unmarshal_ranges n entry_size (entry_count + re.num_entries) (drop entry_size buf)) [
        | none ↦ none
        | some rs ↦ some (re ∷ rs)
      ]

module _ (read_at : ℕ → ℕ → Bytes × ReadStatus) (unmarshal_header : Bytes → Option Header) where
  -- `readIndex` from the header on
  unfoldable pub load_ranges : ℕ → Header → Result Reader
  load_ranges header_size h =
      if not (h.version == 1)
      then err unsupported_version
      else if ltb h.block_size 512 || ltb 1048576 h.block_size
      then err invalid_block_size
      else if h.num_range_entries == 0 || h.num_block_entries == 0
      then ok (record { header = h; data_offset = 0; ranges = []; entry_buf = [] })
      else let range_size = (h.num_range_entries * h.range_entry_size) % 2 ^ 32 in
        let entry_size = (h.num_block_entries * h.block_entry_size) % 2 ^ 32 in
        let range_offset = 20 + header_size in
        let ranges = read_at range_size range_offset in
        let entries = read_at entry_size (range_offset + range_size) in
        elim ranges.1 [
          | eof ↦ err (read_error eof)
          | failed ↦ err (read_error failed)
          | done ↦ elim entries.1 [
            | eof ↦ err (read_error eof)
            | failed ↦ err (read_error failed)
            | done ↦ elim (unmarshal_ranges h.num_range_entries h.range_entry_size 0 ranges.0) [
              | none ↦ panic
              | some rs ↦ ok (record {
                header = h;
                data_offset = range_offset + (range_size + entry_size);
                ranges = rs;
                entry_buf = entries.0;
              })
            ]
          ]
        ]

  -- `readIndex` of a reader without an index, as `Load` calls it
  unfoldable pub load : Result Reader
  load =
      let start = read_at 20 0 in
      elim start.1 [
        | eof ↦ err (read_error eof)
        | failed ↦ err (read_error failed)
        | done ↦
            if not (bytes_equal (take 16 start.0) magic)
            then err invalid_magic
            else let header_size = of_le (drop 16 start.0) in
              let buf = read_at header_size 20 in
              elim buf.1 [
                | eof ↦ err (read_error eof)
                | failed ↦ err (read_error failed)
                | done ↦ elim (unmarshal_header buf.0) [
                  | none ↦ err unmarshal_error
                  | some h ↦ load_ranges header_size h
                ]
              ]
      ]

-- `parseBlockEntry`; `none` is a slice out of bounds.
unfoldable pub parse_block_entry : Reader → ℕ → Option BlockEntry
parse_block_entry r i =
    let buf = drop (i * r.header.block_entry_size) r.entry_buf in
    if ltb (length buf) r.header.block_entry_size || ltb r.header.block_entry_size 3
    then none
    else some (unmarshal_block buf)

-- `fillEntry`, with the data offset that its callers fill in
unfoldable pub fill_entry : Reader → ℕ → ℕ → ℕ → Option ReaderIndexEntry
fill_entry r range_index block_index data_offset = elim (get_elem? r.ranges range_index) [
  | none ↦ none
  | some re ↦ elim (parse_block_entry r block_index) [
    | none ↦ none
    | some be ↦ some (record {
      offset = mul64 (re.start_offset + be.offset) r.header.block_size;
      length = mul64 (entry_length be) r.header.block_size;
      data_offset = data_offset;
      range_index = range_index;
      entry_index = block_index;
    })
  ]
]

-- `sort.Search` for the first range that starts after the block; the ranges are in order.
unfoldable pub search_ranges : ℕ → List RangeEntry → ℕ
search_ranges off [] = 0
search_ranges off (r ∷ rs) =
    let rest = search_ranges off rs in if slt off r.start_offset then 0 else suc rest

-- What `getNextEntry` finds: an entry, none, or a panic
pub data Found : Type 0 where
  found : ReaderIndexEntry → Found
  not_found out_of_range : Found

unfoldable pub found_entry : Option ReaderIndexEntry → Found
found_entry none = out_of_range
found_entry (some e) = found e

-- After the entries of a range: the first entry of the next one
unfoldable pub next_range_entry : Reader → ℕ → Found
next_range_entry r ri = elim (get_elem? r.ranges ri) [
  | none ↦ not_found
  | some re ↦
      found_entry (fill_entry r ri re.first_entry_index (mul64 re.data_offset r.header.block_size))
]

-- The loop over `n` entries of a range
unfoldable pub scan_range : Reader → ℕ → RangeEntry → ℕ → ℕ → ℕ → ℕ → Found
scan_range r ri re off zero ei data_block_offset = next_range_entry r (ri + 1)
scan_range r ri re off (suc n) ei data_block_offset = elim (parse_block_entry r ei) [
  | none ↦ out_of_range
  | some entry ↦
      let entry_off = re.start_offset + entry.offset in
      let rest = scan_range r ri re off n (ei + 1) (data_block_offset + entry_length entry) in
      if not (slt entry_off off)
        || (not (slt off entry_off) && slt off (entry_off + entry_length entry))
      then found_entry (fill_entry r ri ei (mul64 data_block_offset r.header.block_size))
      else rest
]

-- `getNextEntry` of a block
unfoldable pub get_next_entry : Reader → ℕ → Found
get_next_entry r off = elim (search_ranges off r.ranges) [
  | zero ↦ found_entry (fill_entry r 0 0 0)
  | suc ri ↦ elim (get_elem? r.ranges ri) [
    | none ↦ out_of_range
    | some re ↦ scan_range r ri re off re.num_entries re.first_entry_index re.data_offset
  ]
]

-- A position, io.EOF, or a panic
pub data Position : Type 0 where
  position : ℕ → Position
  end_of_file position_panic : Position

-- `NextData`
unfoldable pub next_data : Reader → ℕ → Position
next_data r off = elim (get_next_entry r (off / r.header.block_size)) [
  | found e ↦ if entry_contains e off then position off else position e.offset
  | not_found ↦ end_of_file
  | out_of_range ↦ position_panic
]
