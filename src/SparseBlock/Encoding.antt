-- ===== src/SparseBlock/Encoding.antt =====
-- The round trips of the index entries of internal/sparseblock/builder.go.
use logblock.Prelude.{
  ℕ, ◌+◌, ◌*◌, ◌/◌, ◌%◌, ◌^◌, ◌≤◌, ◌<◌, ◌≡◌, ap, some, ◌∷◌, ◌++◌, ◌∙◌, arith, le, of_le, of_le-le,
  take, drop,
}
use logblock.SparseBlock.{
  EntryType, data_entry, hole_entry, type_code, RangeEntry, set_byte, marshal_range,
  unmarshal_range, BlockEntry, marshal_block, unmarshal_block, length_type, entry_length,
}

-- A start that fits in 48 bits keeps the byte above it for the number of entries.
start_bytes : (s n : ℕ) → s < 2 ^ 48 → of_le (take 6 (le 8 s) ++ n ∷ drop 7 (le 8 s)) % 2 ^ 48 ≡ s
start_bytes s n h = omega arith

-- unmarshal gives back the range entry that marshalAppend was given, if the offsets fit in 48 bits and
-- the number of entries in a byte.
pub unmarshal_range-marshal_range :
    (e old : RangeEntry)
    → e.start_offset < 2 ^ 48
    → e.data_offset < 2 ^ 48
    → e.num_entries < 256
    → unmarshal_range (marshal_range e) old ≡ record e { first_entry_index = old.first_entry_index }
unfolding unmarshal_range marshal_range set_byte
unmarshal_range-marshal_range e old s d n =
    let start : of_le (
            take 6 (le 8 (e.start_offset % 2 ^ 48))
            ++ (e.num_entries % 256) ∷ drop 7 (le 8 (e.start_offset % 2 ^ 48)))
          % 2 ^ 48
        ≡ e.start_offset =
      start_bytes (e.start_offset % 2 ^ 48) (e.num_entries % 256) (omega arith) ∙ omega arith in
    let dat : of_le (le 8 (e.data_offset % 2 ^ 48)) % 2 ^ 48 ≡ e.data_offset =
      ap (λ v. v % 2 ^ 48) (of_le-le 8 (e.data_offset % 2 ^ 48) (omega arith)) ∙ omega arith in
    let num : e.num_entries % 256 ≡ e.num_entries = omega arith in
    λ i. record {
      start_offset = start i;
      data_offset = dat i;
      num_entries = num i;
      first_entry_index = old.first_entry_index;
    }

pub unmarshal_block-marshal_block :
    (e : BlockEntry) → e.offset < 2 ^ 16 → unmarshal_block (marshal_block e) ≡ e
unfolding unmarshal_block marshal_block
unmarshal_block-marshal_block e h =
    let offset : e.offset % 256 + 256 * (e.offset / 256 % 256) ≡ e.offset = omega arith in
    λ i. record { offset = offset i; length_type = e.length_type }

-- setLengthType panics on no length up to 127, and length gives that length back.
pub length_type-eq :
    (len : ℕ) (t : EntryType) → len ≤ 127 → length_type len t ≡ some (len * 2 + type_code t)
unfolding length_type
length_type-eq len data_entry h = ground arith
length_type-eq len hole_entry h = ground arith

pub entry_length_lem :
    (len : ℕ) (t : EntryType) (offset : ℕ)
    → entry_length (record { offset = offset; length_type = len * 2 + type_code t }) ≡ len
unfolding entry_length
entry_length_lem len data_entry offset = omega arith
entry_length_lem len hole_entry offset = omega arith
