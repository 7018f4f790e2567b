-- ===== src/SparseBlock/Tests.antt =====
-- The theorems on internal/sparseblock at concrete tables.
use logblock.Prelude.{ℕ, ◌≡◌, some, [], ◌∷◌, ◌++◌, arith}
use logblock.SparseBlock.{RangeEntry}
use logblock.SparseBlock.Reader.{unmarshal_ranges}
use logblock.SparseBlock.ReadIndex.{Fit, indexed, unmarshal_ranges-marshal_ranges}
use logblock.SparseBlock.Builder.{Builder, marshal_ranges, new_builder, add_blocks}
use logblock.SparseBlock.Builder.Decode.{run}
use logblock.SparseBlock.Builder.Index.{
  IsBuilder, index_blocks, new_builder-IsBuilder, index_blocks-add_blocks,
}

abbrev full_range : RangeEntry
full_range = record {
  start_offset = 70000;
  data_offset = 8128;
  num_entries = 64;
  first_entry_index = 3;
}

abbrev empty_table : Builder ℕ
empty_table = new_builder 512

-- A range of three chunks.
index_blocks-add_blocks_example :
    (b' : Builder ℕ) × (add_blocks 5 300 9 empty_table ≡ some b')
    × IsBuilder b'
    × (index_blocks b' ≡ index_blocks empty_table ++ run 5 300 empty_table.data_offset)
unfolding new_builder
index_blocks-add_blocks_example =
    index_blocks-add_blocks 5 300 9 empty_table (new_builder-IsBuilder 512) (omega arith)
      (omega arith) (omega arith)

unmarshal_ranges-marshal_ranges_example :
    unmarshal_ranges 1 16 0 (marshal_ranges (full_range ∷ []) ++ 5 ∷ [])
    ≡ some (indexed 0 (full_range ∷ []))
unfolding Fit
unmarshal_ranges-marshal_ranges_example =
    unmarshal_ranges-marshal_ranges 0 (full_range ∷ []) (5 ∷ [])
      (omega arith, omega arith, omega arith, omega arith)
