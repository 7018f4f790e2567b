-- ===== src/SparseBlock/Builder/Index.antt =====
-- The index of a Builder (internal/sparseblock/builder.go) from call to call of `AddBlocks`.
use logblock.Prelude.{
  ℕ, zero, suc, ◌+◌, ◌-◌, ◌^◌, ◌≤◌, ◌<◌, ◌≡◌, refl, sym, ap, subst, ◌∙◌, some, List, [], ◌∷◌, ◌++◌,
  arith, Bytes, slt-eq-ltb, add64, add64-eq, append-nil,
}
use logblock.SparseBlock.{RangeEntry}
use logblock.SparseBlock.Builder.{
  Filling, fill, Builder, new_builder, split_last, filling, add_entry, add_blocks,
}
use logblock.SparseBlock.Builder.Decode.{
  Placed, run, range_blocks, range_length, table_blocks, entry_total,
}
use logblock.SparseBlock.Builder.Fill.{IsFilling, blocks, Adds}
use logblock.SparseBlock.Builder.Adds.{fill-Adds, Reaches}

split_last_join :
    (r : RangeEntry) (rest : List RangeEntry)
    → (split_last r rest).0 ++ (split_last r rest).1 ∷ [] ≡ r ∷ rest
unfolding split_last
split_last_join r [] = refl
split_last_join r (q ∷ rest) = ap (λ t. r ∷ t) (split_last_join q rest)

split_last_push :
    (r q : RangeEntry) (rest : List RangeEntry) → split_last q (rest ++ r ∷ []) ≡ (q ∷ rest, r)
unfolding split_last
split_last_push r q [] = refl
split_last_push r q (p ∷ rest) = ap (λ t. (q ∷ t.0, t.1)) (split_last_push r p rest)

filling_push :
    (offset : ℕ) (before : List RangeEntry) (curr : RangeEntry) (buf : Bytes) (d : ℕ)
    → filling offset (before ++ curr ∷ []) buf d
      ≡ record { before = before; curr = curr; block_entry_buf = buf; data_offset = d }
unfolding filling split_last
filling_push offset [] curr buf d = refl
filling_push offset (q ∷ before) curr buf d =
    ap (λ t. record { before = t.0; curr = t.1; block_entry_buf = buf; data_offset = d })
      (split_last_push curr q before)

module _ {R : Type 0} where
  -- A Builder between calls: its index is well-formed, and the last range starts before the end.
  pub record IsBuilder (b : Builder R) : Type 0 where
    pub filled : IsFilling (filling b.prev_end b.ranges b.block_entry_buf b.data_offset)
    pub started :
        (filling b.prev_end b.ranges b.block_entry_buf b.data_offset).curr.start_offset ≤ b.prev_end
    pub total : b.total_blocks ≡ b.data_offset
    pub total_data : b.total_data_blocks ≡ b.data_offset
    pub bound : b.data_offset ≤ 2 ^ 48

  -- The blocks that the index stands for, with the positions of their data.
  unfoldable pub index_blocks : Builder R → List Placed
  index_blocks b = table_blocks b.ranges b.block_entry_buf

pub new_builder-IsBuilder :
    {R : Type 0} (block_size : ℕ) → IsBuilder {R = R} (new_builder block_size)
unfolding new_builder filling range_length entry_total
new_builder-IsBuilder block_size = record {
  filled = record {
    front = [];
    back = [];
    split = refl;
    front_length = omega arith;
    back_length = omega arith;
    position = omega arith;
  };
  started = omega arith;
  total = refl;
  total_data = refl;
  bound = omega arith;
}

-- The start of the first range is all that depends on the offset.
filling-IsFilling :
    (x y : ℕ) (rs : List RangeEntry) (buf : Bytes) (d : ℕ)
    → IsFilling (filling x rs buf d)
    → x ≤ y
    → (filling x rs buf d).curr.start_offset ≤ x
    → IsFilling (filling y rs buf d)
      × (blocks (filling y rs buf d) ≡ table_blocks rs buf)
      × ((filling y rs buf d).curr.start_offset ≤ y)
unfolding filling blocks table_blocks range_blocks
filling-IsFilling x y [] buf d v later started = (
  record {
    front = v.front;
    back = v.back;
    split = v.split;
    front_length = v.front_length;
    back_length = v.back_length;
    position = v.position;
  },
  refl,
  omega arith,
)
filling-IsFilling x y (r ∷ rest) buf d v later started =
    (v, ap (λ rs. table_blocks rs buf) (split_last_join r rest), omega arith)

filling-data_offset :
    (x : ℕ) (rs : List RangeEntry) (buf : Bytes) (d : ℕ) → (filling x rs buf d).data_offset ≡ d
unfolding filling
filling-data_offset x [] buf d = refl
filling-data_offset x (r ∷ rest) buf d = refl

module _ {R : Type 0} where
  -- The Builder after the loop.
  abbrev added : ℕ → ℕ → R → Builder R → Filling → Builder R
  added offset len source b s = record b {
    entries = b.entries ++ record { offset = offset; length = len; source = source } ∷ [];
    data_offset = s.data_offset;
    ranges = s.before ++ s.curr ∷ [];
    block_entry_buf = s.block_entry_buf;
    total_blocks = add64 b.total_blocks len;
    total_data_blocks = add64 b.total_data_blocks len;
    prev_end = add64 offset len;
  }

  added-IsBuilder :
      (offset len : ℕ) (source : R) (b : Builder R) (s : Filling)
      → IsBuilder b
      → IsFilling s
      → s.curr.start_offset ≤ offset + len
      → s.data_offset ≡ b.data_offset + len
      → offset + len < 2 ^ 63
      → b.data_offset + len ≤ 2 ^ 48
      → IsBuilder (added offset len source b s)
  added-IsBuilder offset len source b s i v start d small fits =
      let e = filling_push (add64 offset len) s.before s.curr s.block_entry_buf s.data_offset in
      record {
        filled = subst IsFilling (sym e) v;
        started =
            subst (λ t. t.curr.start_offset ≤ add64 offset len) (sym e)
              (omega (arith, add64-eq offset len (omega arith)));
        total = add64-eq b.total_blocks len (omega (arith, i.total)) ∙ omega (arith, i.total);
        total_data =
            add64-eq b.total_data_blocks len (omega (arith, i.total_data))
            ∙ omega (arith, i.total_data);
        bound = omega arith;
      }

  add_entry-some :
      (offset len : ℕ) (source : R) (b : Builder R) (s : Filling)
      → fill len offset len 0 (filling offset b.ranges b.block_entry_buf b.data_offset) ≡ some s
      → add_entry offset len source b ≡ some (added offset len source b s)
  unfolding add_entry
  add_entry-some offset len source b s e = rw (e, add_entry) refl

  add_blocks-guards :
      (offset len : ℕ) (source : R) (b : Builder R)
      → b.prev_end ≤ offset
      → offset + len < 2 ^ 63
      → b.data_offset + len ≤ 2 ^ 48
      → 0 < len
      → add_blocks offset len source b ≡ add_entry offset len source b
  unfolding add_blocks
  add_blocks-guards offset len source b after small fits more = ground (
    arith,
    slt-eq-ltb offset 0 (omega arith) (omega arith),
    slt-eq-ltb len 0 (omega arith) (omega arith),
    slt-eq-ltb (2 ^ 48) len (omega arith) (omega arith),
    slt-eq-ltb (2 ^ 48) (b.data_offset + len) (omega arith) (omega arith),
    add64-eq b.data_offset len (omega arith),
    slt-eq-ltb offset b.prev_end (omega arith) (omega arith),
  )

  add_blocks-none :
      (offset : ℕ) (source : R) (b : Builder R)
      → b.prev_end ≤ offset
      → offset < 2 ^ 63
      → b.data_offset ≤ 2 ^ 48
      → add_blocks offset 0 source b ≡ some b
  unfolding add_blocks
  add_blocks-none offset source b after small fits = ground (
    arith,
    slt-eq-ltb offset 0 (omega arith) (omega arith),
    slt-eq-ltb 0 0 (omega arith) (omega arith),
    slt-eq-ltb (2 ^ 48) 0 (omega arith) (omega arith),
    slt-eq-ltb (2 ^ 48) b.data_offset (omega arith) (omega arith),
    add64-eq b.data_offset 0 (omega arith),
    slt-eq-ltb offset b.prev_end (omega arith) (omega arith),
  )

  -- On a Builder with a well-formed index, AddBlocks of a range that starts at or after the end of the
  -- last one, ends below 2^63 and keeps the file within MaxBlocks does not panic, keeps the index
  -- well-formed, and adds exactly the blocks of the range to those that the index stands for, in
  -- order, with their data in a row after the data of the others.
  pub index_blocks-add_blocks :
      (offset len : ℕ) (source : R) (b : Builder R)
      → IsBuilder b
      → b.prev_end ≤ offset
      → offset + len < 2 ^ 63
      → b.data_offset + len ≤ 2 ^ 48
      → (b' : Builder R) × (add_blocks offset len source b ≡ some b')
        × IsBuilder b'
        × (index_blocks b' ≡ index_blocks b ++ run offset len b.data_offset)
  unfolding index_blocks run Reaches Adds blocks
  index_blocks-add_blocks offset zero source b i after small fits = (
    b,
    add_blocks-none offset source b after (omega arith) (omega arith),
    i,
    sym (append-nil (table_blocks b.ranges b.block_entry_buf)),
  )
  index_blocks-add_blocks offset (suc n) source b i after small fits =
      let len = suc n in
      let v =
        filling-IsFilling b.prev_end offset b.ranges b.block_entry_buf b.data_offset i.filled after
          i.started in
      let s = filling offset b.ranges b.block_entry_buf b.data_offset in
      let d = filling-data_offset offset b.ranges b.block_entry_buf b.data_offset in
      let loop =
        fill-Adds len offset len 0 s v.0 (omega (arith, v.2)) (omega arith) (omega arith) small
          (omega (arith, d)) in
      let o : offset + 0 ≡ offset = omega arith in
      let l : len - 0 ≡ len = omega arith in
      (
        added offset len source b loop.0,
        add_blocks-guards offset len source b after small fits (omega arith)
            ∙ add_entry-some offset len source b loop.0 loop.1,
        added-IsBuilder offset len source b loop.0 i loop.2.0 loop.3 (omega (arith, loop.2.2, d))
            small fits,
        loop.2.1 ∙ λ j. v.1 j ++ run (o j) (l j) (d j),
      )
