-- ===== src/SparseBlock/Builder.antt =====
-- The `Builder` of internal/sparseblock/builder.go. The writer, protobuf and the readers of the data are
-- what the program is given.
pub mod Decode
pub mod Fill
pub mod Adds
pub mod Index
use logblock.Prelude.{
  ℕ, zero, suc, ◌+◌, ◌*◌, ◌/◌, ◌%◌, ◌^◌, ◌≤◌, Bool, true, false, ◌||◌, Option, none, some, List, [],
  ◌∷◌, ◌++◌, if◌then◌else◌, ltb, leb, slt, ◌==◌, add64, sub64, Bytes,
}
use logblock.SparseBlock.{
  EntryType, data_entry, max_range_entries, max_entry_length, block_entry_size, max_blocks,
  RangeEntry, BlockEntry, marshal_block, marshal_range, length_type,
}

-- What `AddBlocks` has of the range that it fills: the ranges before it, the range, the encoded
-- entries and the number of data blocks.
pub record Filling : Type 0 where
  pub before : List RangeEntry
  pub curr : RangeEntry
  pub block_entry_buf : Bytes
  pub data_offset : ℕ

abbrev pub fresh_range : ℕ → ℕ → RangeEntry
fresh_range start position = record {
  start_offset = start;
  data_offset = position;
  num_entries = 0;
  first_entry_index = 0;
}

-- A range with 64 entries, or one that begins too far before the block, is closed.
unfoldable pub next_range : ℕ → Filling → Filling
next_range block_offset s =
    if leb max_range_entries s.curr.num_entries
      || slt 65535 (sub64 block_offset s.curr.start_offset)
    then record s {
      before = s.before ++ s.curr ∷ [];
      curr = fresh_range block_offset s.data_offset;
    }
    else s

-- `eLen`
unfoldable pub chunk_length : ℕ → ℕ
chunk_length rest = if slt max_entry_length rest then max_entry_length else rest

-- The entry of a length of at most 127.
unfoldable pub push_entry : ℕ → ℕ → Filling → Option Filling
push_entry block_offset len s = elim (length_type len data_entry) [
  | none ↦ none
  | some lt ↦ some (record s {
    curr = record s.curr { num_entries = s.curr.num_entries + 1 };
    block_entry_buf =
        s.block_entry_buf
        ++ marshal_block
            (record { offset = sub64 block_offset s.curr.start_offset % 2 ^ 16; length_type = lt });
    data_offset = add64 s.data_offset len;
  })
]

-- The loop of `AddBlocks`; every iteration but the last adds 127 blocks.
unfoldable pub fill : ℕ → ℕ → ℕ → ℕ → Filling → Option Filling
fill zero offset len e_offset s = some s
fill (suc fuel) offset len e_offset s =
    if slt e_offset len
    then elim (push_entry (add64 offset e_offset) (chunk_length (sub64 len e_offset))
        (next_range (add64 offset e_offset) s)) [
          | none ↦ none
          | some s' ↦ fill fuel offset len (add64 e_offset (chunk_length (sub64 len e_offset))) s'
        ]
    else some s

-- `indexEntry`: the blocks and the reader of their data; all entries are of data.
pub record IndexEntry (R : Type 0) : Type 0 where
  pub offset : ℕ
  pub length : ℕ
  pub source : R

-- `Builder` without its writer
pub record Builder (R : Type 0) : Type 0 where
  pub block_size : ℕ
  pub entries : List (IndexEntry R)
  pub data_offset : ℕ
  pub ranges : List RangeEntry
  pub block_entry_buf : Bytes
  pub total_blocks : ℕ
  pub total_data_blocks : ℕ
  pub prev_end : ℕ

-- `b.ranges[len(b.ranges)-1]` and the ranges before it
unfoldable pub split_last : RangeEntry → List RangeEntry → List RangeEntry × RangeEntry
split_last r [] = ([], r)
split_last r (q ∷ rest) = (r ∷ (split_last q rest).0, (split_last q rest).1)

-- Before the loop: the first range starts at the offset.
unfoldable pub filling : ℕ → List RangeEntry → Bytes → ℕ → Filling
filling offset [] buf data_offset = record {
  before = [];
  curr = fresh_range offset 0;
  block_entry_buf = buf;
  data_offset = data_offset;
}
filling offset (r ∷ rest) buf data_offset = record {
  before = (split_last r rest).0;
  curr = (split_last r rest).1;
  block_entry_buf = buf;
  data_offset = data_offset;
}

module _ {R : Type 0} where
  -- `NewBuilder`
  unfoldable pub new_builder : ℕ → Builder R
  new_builder block_size = record {
    block_size = block_size;
    entries = [];
    data_offset = 0;
    ranges = [];
    block_entry_buf = [];
    total_blocks = 0;
    total_data_blocks = 0;
    prev_end = 0;
  }

  -- `AddBlocks` behind its guards
  unfoldable pub add_entry : ℕ → ℕ → R → Builder R → Option (Builder R)
  add_entry offset len source b =
      elim (fill len offset len 0 (filling offset b.ranges b.block_entry_buf b.data_offset)) [
        | none ↦ none
        | some s ↦ some (record b {
          entries = b.entries ++ record { offset = offset; length = len; source = source } ∷ [];
          data_offset = s.data_offset;
          ranges = s.before ++ s.curr ∷ [];
          block_entry_buf = s.block_entry_buf;
          total_blocks = add64 b.total_blocks len;
          total_data_blocks = add64 b.total_data_blocks len;
          prev_end = add64 offset len;
        })
      ]

  -- `AddBlocks`; `none` is a panic.
  unfoldable pub add_blocks : ℕ → ℕ → R → Builder R → Option (Builder R)
  add_blocks offset len source b =
      if slt offset 0 || slt len 0
      then none
      else if slt max_blocks len
      then none
      else if slt max_blocks (add64 b.data_offset len)
      then none
      else if slt offset b.prev_end
      then none
      else if len == 0
      then some b
      else add_entry offset len source b

-- What `writeIndex` writes: the ranges, then the block entries.
unfoldable pub marshal_ranges : List RangeEntry → Bytes
marshal_ranges [] = []
marshal_ranges (r ∷ rs) = marshal_range r ++ marshal_ranges rs

unfoldable pub write_index : {R : Type 0} → Builder R → Bytes
write_index b = marshal_ranges b.ranges ++ b.block_entry_buf
