-- ===== src/BlockMap/Tests.antt =====
-- A block map over a table whose first three blocks of two bytes are sevens.
use logblock.Prelude.{
  ℕ, update, ◌*◌, ◌≡◌, ◌≢◌, refl, ◌∙◌, inl, inr, ◌&&◌, none, some, [], ◌∷◌, arith, Bytes, ltb,
  if◌then◌else◌, Bool-cases,
}
use logblock.Adaptor.{done}
use logblock.Readers.Views.{content}
use logblock.RangeMap.Spec.{in_range}
use logblock.BlockMap.{
  is_member, BlockMap, new_block_map, push_reader, push_ok, remove_table, find, blocks_read,
  read_blocks,
}
use logblock.BlockMap.Push.{has_block}
use logblock.BlockMap.Tables.{
  IsConsistent, new_block_map-IsConsistent, find-push_reader, find-remove_table,
}
use logblock.BlockMap.Samples.{numbers, index, sevens, sevens_view, sevens_sound}
use logblock.BlockMap.Reads.{block_at, read_blocks-content}

abbrev start : BlockMap index numbers
start = new_block_map index numbers 2 8

find-push_reader_example :
    (r' : BlockMap index numbers) × (push_reader index numbers 9 5 sevens start ≡ push_ok r')
    × IsConsistent index numbers r'
    × ((b : ℕ)
        → find index numbers r' b
          ≡ (if has_block (sevens_view b) then some 5 else find index numbers start b))
unfolding new_block_map is_member
find-push_reader_example =
    find-push_reader index numbers start (new_block_map-IsConsistent index numbers 2 8) 5 1 refl
      refl refl sevens_sound 3 9 (omega arith) (λ b above. ground arith) (omega arith)

-- A table that has been shadowed entirely
abbrev shadowed : BlockMap index numbers
shadowed = record start {
  rs = 5 ∷ [];
  index_map = update (λ b. none) 5 (some 1);
  value_map = update (λ b. none) 1 (some 5);
  free_set = λ i. ltb 1 i && ltb i 65536;
}

nowhere : (b : ℕ) → index.get shadowed.range_map b ≡ none
unfolding new_block_map
nowhere b = index.get-empty b

unmapped : (b iv : ℕ) → index.get shadowed.range_map b ≢ some iv
unmapped b iv e = cc (nowhere b)

shadowed-IsConsistent : IsConsistent index numbers shadowed
unfolding new_block_map
shadowed-IsConsistent = record {
  valid = index.empty-Valid;
  used = λ b iv e. absurd (unmapped b iv e);
  known = λ b iv e. absurd (unmapped b iv e);
}

find-remove_table_example :
    (r' : BlockMap index numbers) × (remove_table index numbers 5 shadowed ≡ some r')
    × IsConsistent index numbers r'
    × ((b : ℕ) → find index numbers r' b ≡ find index numbers shadowed b)
find-remove_table_example =
    find-remove_table index numbers shadowed 5 1 shadowed-IsConsistent refl (omega arith)
      (λ b. unmapped b 1)

abbrev loaded : BlockMap index numbers
loaded = record shadowed { range_map = index.add index.empty 0 3 1; block_size = 2 }

find-loaded : (b : ℕ) → find index numbers loaded b ≡ (if in_range 0 3 b then some 5 else none)
unfolding find
find-loaded b = elim (Bool-cases (in_range 0 3 b)) [
  | inl h ↦
      let e : index.get loaded.range_map b ≡ some 1 =
        index.get-add index.empty 0 3 1 index.empty-Valid (omega arith) b ∙ rw h refl in
      rw h (rw (e, find) refl)
  | inr h ↦
      let e : index.get loaded.range_map b ≡ none =
        index.get-add index.empty 0 3 1 index.empty-Valid (omega arith) b
        ∙ rw h (index.get-empty b) in
      rw h (rw (e, find) refl)
]

loaded_backed :
    (b br : ℕ) → find index numbers loaded b ≡ some br → (d : Bytes) × (sevens_view b ≡ some d)
loaded_backed b br e = elim (Bool-cases (in_range 0 3 b)) [
  | inl h ↦ (7 ∷ 7 ∷ [], ground arith)
  | inr h ↦ absurd (ground (arith, find-loaded b))
]

read_blocks-content_example :
    read_blocks index numbers (λ br. sevens) loaded (4 * 2) 1
    ≡ blocks_read
        (content
          (block_at index numbers loaded
            (λ br. sevens_sound)
            (omega arith)
            loaded_backed
            (λ br off k has. refl))
          1
          4)
        4
        done
read_blocks-content_example =
    read_blocks-content index numbers loaded (λ br. sevens_sound) (omega arith) loaded_backed
      (λ br off k has. refl) 4 1
