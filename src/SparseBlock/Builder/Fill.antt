-- ===== src/SparseBlock/Builder/Fill.antt =====
-- The loop of `AddBlocks` (internal/sparseblock/builder.go) against the blocks that an index stands for.
use logblock.Prelude.{
  ℕ, suc, ◌+◌, ◌-◌, ◌*◌, ◌%◌, ◌^◌, ◌≤◌, ◌<◌, ◌≡◌, refl, sym, ap, ◌∙◌, inl, inr, some, List, [], ◌∷◌,
  ◌++◌, arith, Bytes, length, leb, slt, slt-eq-ltb, add64, add64-eq, sub64, sub64-eq, ◌||◌,
  append_assoc, append-nil, length-append, Bool-cases,
}
use logblock.SparseBlock.{data_entry, RangeEntry, BlockEntry, marshal_block}
use logblock.SparseBlock.Encoding.{length_type-eq, entry_length_lem}
use logblock.SparseBlock.Builder.{Filling, fresh_range, next_range, push_entry}
use logblock.SparseBlock.Builder.Decode.{
  Placed, run, range_blocks, range_length, table_blocks, entry_total, range_blocks_push,
  range_length_push, table_blocks_push,
}

-- The encoded entries are those of the ranges before and those of the range, and the data goes on where the
-- range's ends.
pub record IsFilling (s : Filling) : Type 0 where
  pub front : Bytes
  pub back : Bytes
  pub split : s.block_entry_buf ≡ front ++ back
  pub front_length : length front ≡ entry_total s.before * 3
  pub back_length : length back ≡ s.curr.num_entries * 3
  pub position : s.data_offset ≡ s.curr.data_offset + range_length s.curr.num_entries back

unfoldable pub blocks : Filling → List Placed
blocks s = table_blocks (s.before ++ s.curr ∷ []) s.block_entry_buf

-- The blocks, split at the range.
pub blocks-split :
    (s : Filling) (v : IsFilling s)
    → blocks s
      ≡ table_blocks s.before v.front
        ++ range_blocks s.curr.start_offset s.curr.data_offset s.curr.num_entries v.back
unfolding blocks
blocks-split s v = rw (v.split) (table_blocks_push s.before s.curr v.front v.back v.front_length)

-- What a step with the range does: a filling that is well-formed and has the blocks that it had, and then
-- some in a row.
unfoldable pub Adds : Filling → ℕ → ℕ → Filling → Type 0
Adds s block n s' =
    IsFilling s'
    × (blocks s' ≡ blocks s ++ run block n s.data_offset)
    × (s'.data_offset ≡ s.data_offset + n)

abbrev entry_of : Filling → ℕ → ℕ → BlockEntry
entry_of s block n = record {
  offset = sub64 block s.curr.start_offset % 2 ^ 16;
  length_type = n * 2 + 0;
}

entry_of-offset :
    (s : Filling) (block n : ℕ)
    → s.curr.start_offset ≤ block
    → block < s.curr.start_offset + 2 ^ 16
    → block < 2 ^ 63
    → s.curr.start_offset + (entry_of s block n).offset ≡ block
entry_of-offset s block n after near small =
    omega (arith, sub64-eq block s.curr.start_offset after (omega arith))

-- The filling after an entry.
abbrev pub pushed : Filling → ℕ → ℕ → Filling
pushed s block n = record s {
  curr = record s.curr { num_entries = s.curr.num_entries + 1 };
  block_entry_buf = s.block_entry_buf ++ marshal_block (entry_of s block n);
  data_offset = add64 s.data_offset n;
}

length_marshal_block : (e : BlockEntry) → length (marshal_block e) ≡ 3
unfolding marshal_block
length_marshal_block e = refl

pushed-length :
    (s : Filling) (block n : ℕ) (v : IsFilling s)
    → range_length (s.curr.num_entries + 1) (v.back ++ marshal_block (entry_of s block n))
      ≡ range_length s.curr.num_entries v.back + n
pushed-length s block n v =
    let e1 : s.curr.num_entries + 1 ≡ suc s.curr.num_entries = omega arith in
    rw e1 (
      range_length_push s.curr.num_entries v.back (entry_of s block n) v.back_length (omega arith)
      ∙ ap (λ l. range_length s.curr.num_entries v.back + l) (entry_length_lem n data_entry _))

pushed-range :
    (s : Filling) (block n : ℕ) (v : IsFilling s)
    → s.curr.start_offset ≤ block
    → block < s.curr.start_offset + 2 ^ 16
    → block < 2 ^ 63
    → range_blocks s.curr.start_offset s.curr.data_offset
        (s.curr.num_entries + 1)
        (v.back ++ marshal_block (entry_of s block n))
      ≡ range_blocks s.curr.start_offset s.curr.data_offset s.curr.num_entries v.back
        ++ run block n s.data_offset
pushed-range s block n v after near small =
    let num = s.curr.num_entries in
    let e1 : num + 1 ≡ suc num = omega arith in
    let at = entry_of-offset s block n after near small in
    let len = entry_length_lem n data_entry (entry_of s block n).offset in
    let from = sym v.position in
    rw e1 (
      range_blocks_push s.curr.start_offset s.curr.data_offset num v.back (entry_of s block n)
        v.back_length (omega arith)
      ∙ λ i.
          range_blocks s.curr.start_offset s.curr.data_offset num v.back
          ++ run (at i) (len i) (from i))

pushed-IsFilling :
    (s : Filling) (block n : ℕ)
    → IsFilling s
    → s.data_offset + n < 2 ^ 63
    → IsFilling (pushed s block n)
pushed-IsFilling s block n v room =
    let e = entry_of s block n in
    record {
      front = v.front;
      back = v.back ++ marshal_block e;
      split =
          ap (λ b. b ++ marshal_block e) v.split ∙ append_assoc v.front v.back (marshal_block e);
      front_length = v.front_length;
      back_length =
          length-append v.back (marshal_block e)
          ∙ omega (arith, v.back_length, length_marshal_block e);
      position =
          add64-eq s.data_offset n (omega arith)
          ∙ omega (arith, v.position, pushed-length s block n v);
    }

pushed-blocks :
    (s : Filling) (block n : ℕ)
    → IsFilling s
    → s.curr.start_offset ≤ block
    → block < s.curr.start_offset + 2 ^ 16
    → block < 2 ^ 63
    → s.data_offset + n < 2 ^ 63
    → blocks (pushed s block n) ≡ blocks s ++ run block n s.data_offset
unfolding blocks
pushed-blocks s block n v after near small room =
    let m = marshal_block (entry_of s block n) in
    ap (λ b. table_blocks (s.before ++ (pushed s block n).curr ∷ []) b)
      (ap (λ b. b ++ m) v.split ∙ append_assoc v.front v.back m)
    ∙ table_blocks_push s.before (pushed s block n).curr v.front (v.back ++ m) v.front_length
    ∙ ap (λ t. table_blocks s.before v.front ++ t) (pushed-range s block n v after near small)
    ∙ sym (
        append_assoc (table_blocks s.before v.front)
          (range_blocks s.curr.start_offset s.curr.data_offset s.curr.num_entries v.back)
          (run block n s.data_offset))
    ∙ ap (λ t. t ++ run block n s.data_offset) (sym (blocks-split s v))

pub push_entry-Adds :
    (s : Filling) (block n : ℕ)
    → IsFilling s
    → s.curr.start_offset ≤ block
    → block < s.curr.start_offset + 2 ^ 16
    → block < 2 ^ 63
    → n ≤ 127
    → s.data_offset + n < 2 ^ 63
    → (push_entry block n s ≡ some (pushed s block n)) × Adds s block n (pushed s block n)
unfolding push_entry Adds
push_entry-Adds s block n v after near small short room = (
  rw (length_type-eq n data_entry short, push_entry) refl,
  (
    pushed-IsFilling s block n v room,
    pushed-blocks s block n v after near small room,
    add64-eq s.data_offset n (omega arith),
  ),
)

abbrev closed_range : Filling → ℕ → Filling
closed_range s block = record s {
  before = s.before ++ s.curr ∷ [];
  curr = fresh_range block s.data_offset;
}

entry_total_push :
    (rs : List RangeEntry) (r : RangeEntry)
    → entry_total (rs ++ r ∷ []) ≡ entry_total rs + r.num_entries
unfolding entry_total
entry_total_push [] r = omega arith
entry_total_push (q ∷ rs) r = omega (arith, entry_total_push rs r)

closed-IsFilling : (s : Filling) (block : ℕ) → IsFilling s → IsFilling (closed_range s block)
unfolding range_length
closed-IsFilling s block v = record {
  front = v.front ++ v.back;
  back = [];
  split = v.split ∙ sym (append-nil (v.front ++ v.back));
  front_length =
      length-append v.front v.back
      ∙ omega (arith, v.front_length, v.back_length, entry_total_push s.before s.curr);
  back_length = omega arith;
  position = omega arith;
}

closed-blocks : (s : Filling) (block : ℕ) → IsFilling s → blocks (closed_range s block) ≡ blocks s
unfolding blocks range_blocks
closed-blocks s block v =
    let rs = s.before ++ s.curr ∷ [] in
    let whole : length s.block_entry_buf ≡ entry_total rs * 3 =
      ap length v.split
      ∙ length-append v.front v.back
      ∙ omega (arith, v.front_length, v.back_length, entry_total_push s.before s.curr) in
    ap (λ b. table_blocks (rs ++ fresh_range block s.data_offset ∷ []) b)
      (sym (append-nil s.block_entry_buf))
    ∙ table_blocks_push rs (fresh_range block s.data_offset) s.block_entry_buf [] whole
    ∙ append-nil (table_blocks rs s.block_entry_buf)

-- Closing a range keeps the blocks; the range then begins near enough before the block.
pub next_range-IsFilling : (s : Filling) (block : ℕ) → IsFilling s → IsFilling (next_range block s)
unfolding next_range
next_range-IsFilling s block v =
    elim (Bool-cases (leb 64 s.curr.num_entries || slt 65535 (sub64 block s.curr.start_offset))) [
      | inl closed ↦ rw closed (closed-IsFilling s block v)
      | inr stays ↦ rw stays v
    ]

pub next_range-blocks :
    (s : Filling) (block : ℕ) → IsFilling s → blocks (next_range block s) ≡ blocks s
unfolding next_range
next_range-blocks s block v =
    elim (Bool-cases (leb 64 s.curr.num_entries || slt 65535 (sub64 block s.curr.start_offset))) [
      | inl closed ↦ rw closed (closed-blocks s block v)
      | inr stays ↦ rw stays refl
    ]

pub next_range-near :
    (s : Filling) (block : ℕ)
    → s.curr.start_offset ≤ block
    → block < 2 ^ 63
    → ((next_range block s).curr.start_offset ≤ block)
      × (block < (next_range block s).curr.start_offset + 2 ^ 16)
      × ((next_range block s).data_offset ≡ s.data_offset)
unfolding next_range
next_range-near s block after small = ground (
  arith,
  sub64-eq block s.curr.start_offset after (omega arith),
  slt-eq-ltb 65535 (block - s.curr.start_offset) (omega arith) (omega arith),
)
