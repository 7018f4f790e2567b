-- ===== src/SparseBlock.antt =====
-- internal/sparseblock: tables of sparse blocks. This module has the constants, the index entries and
-- their encoding (internal/sparseblock/builder.go, internal/sparseblock/pb/sparseblock.proto). An
-- int64 is its bit pattern.
pub mod Builder
pub mod Encoding
pub mod Reader
pub mod ReadIndex
mod Tests
use logblock.Prelude.{
  ℕ, suc, ◌+◌, ◌*◌, ◌/◌, ◌%◌, ◌^◌, ◌≤◌, Bool, true, false, Option, none, some, [], ◌∷◌, ◌++◌,
  if◌then◌else◌, ltb, Bytes, le, of_le, take, drop, get_or,
}

pub data EntryType : Type 0 where
  data_entry hole_entry : EntryType

abbrev pub type_code : EntryType → ℕ
type_code data_entry = 0
type_code hole_entry = 1

abbrev pub max_range_entries : ℕ
max_range_entries = 64

abbrev pub max_entry_length : ℕ
max_entry_length = 127

abbrev pub range_entry_size : ℕ
range_entry_size = 16

abbrev pub block_entry_size : ℕ
block_entry_size = 3

-- `MaxBlocks`, and the modulus of `blockMask`
abbrev pub max_blocks : ℕ
max_blocks = 2 ^ 48

-- "sparseblock\x31\x41\x59\x26\x53"
abbrev pub magic : Bytes
magic =
    115 ∷ 112 ∷ 97 ∷ 114 ∷ 115 ∷ 101 ∷ 98 ∷ 108 ∷ 111 ∷ 99 ∷ 107 ∷ 0x31 ∷ 0x41 ∷ 0x59 ∷ 0x26 ∷ 0x53
    ∷ []

-- `rangeEntry`
pub record RangeEntry : Type 0 where
  pub start_offset : ℕ
  pub data_offset : ℕ
  pub num_entries : ℕ
  pub first_entry_index : ℕ

-- `buf[i] = v`
unfoldable pub set_byte : ℕ → ℕ → Bytes → Bytes
set_byte i v buf = take i buf ++ v ∷ drop (suc i) buf

-- `rangeEntry.marshalAppend`: the number of entries goes over the seventh byte of the start.
unfoldable pub marshal_range : RangeEntry → Bytes
marshal_range e =
    set_byte 6 (e.num_entries % 256)
      (le 8 (e.start_offset % 2 ^ 48) ++ le 8 (e.data_offset % 2 ^ 48))

-- `rangeEntry.unmarshal` of at least 16 bytes; the first entry index stays.
unfoldable pub unmarshal_range : Bytes → RangeEntry → RangeEntry
unmarshal_range buf e = record e {
  start_offset = of_le (take 8 buf) % 2 ^ 48;
  data_offset = of_le (take 8 (drop 8 buf)) % 2 ^ 48;
  num_entries = get_or buf 6 0;
}

-- `blockEntry`
pub record BlockEntry : Type 0 where
  pub offset : ℕ
  pub length_type : ℕ

-- `blockEntry.marshalAppend`
unfoldable pub marshal_block : BlockEntry → Bytes
marshal_block e = le 2 e.offset ++ e.length_type ∷ []

-- `blockEntry.unmarshal` of at least three bytes
unfoldable pub unmarshal_block : Bytes → BlockEntry
unmarshal_block buf = record {
  offset = get_or buf 0 0 + 256 * get_or buf 1 0;
  length_type = get_or buf 2 0;
}

-- `setLengthType` of a length that is not negative; `none` is its panic.
unfoldable pub length_type : ℕ → EntryType → Option ℕ
length_type len t = if ltb max_entry_length len then none else some ((len * 2) % 256 + type_code t)

-- `length`
unfoldable pub entry_length : BlockEntry → ℕ
entry_length e = e.length_type / 2
