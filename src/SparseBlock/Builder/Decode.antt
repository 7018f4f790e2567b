-- ===== src/SparseBlock/Builder/Decode.antt =====
-- What an index of internal/sparseblock/builder.go says: the blocks of a table, each with the position
-- of its data, in the order of the index.
use logblock.Prelude.{
  ℕ, zero, suc, ◌+◌, ◌*◌, ◌^◌, ◌≤◌, ◌<◌, ◌≡◌, refl, sym, ap, ◌∙◌, List, [], ◌∷◌, ◌++◌, arith, Bytes,
  length, drop, drop_append_le, length-drop, append_assoc, append-nil,
}
use logblock.SparseBlock.{RangeEntry, BlockEntry, marshal_block, unmarshal_block, entry_length}
use logblock.SparseBlock.Encoding.{unmarshal_block-marshal_block}

pub record Placed : Type 0 where
  pub block : ℕ
  pub position : ℕ

-- Blocks in a row, with their data in a row.
unfoldable pub run : ℕ → ℕ → ℕ → List Placed
run block zero position = []
run block (suc n) position =
    record { block = block; position = position } ∷ run (block + 1) n (position + 1)

-- The blocks of `n` entries, and how many they are.
unfoldable pub range_blocks : ℕ → ℕ → ℕ → Bytes → List Placed
range_blocks start position zero buf = []
range_blocks start position (suc n) buf =
    let e = unmarshal_block buf in
    run (start + e.offset) (entry_length e) position
    ++ range_blocks start (position + entry_length e) n (drop 3 buf)

unfoldable pub range_length : ℕ → Bytes → ℕ
range_length zero buf = 0
range_length (suc n) buf = entry_length (unmarshal_block buf) + range_length n (drop 3 buf)

unfoldable pub table_blocks : List RangeEntry → Bytes → List Placed
table_blocks [] buf = []
table_blocks (r ∷ rs) buf =
    range_blocks r.start_offset r.data_offset r.num_entries buf
    ++ table_blocks rs (drop (r.num_entries * 3) buf)

unfoldable pub entry_total : List RangeEntry → ℕ
entry_total [] = 0
entry_total (r ∷ rs) = r.num_entries + entry_total rs

pub run-add :
    (block a b position : ℕ)
    → run block (a + b) position ≡ run block a position ++ run (block + a) b (position + a)
unfolding run
run-add block zero b position =
    let e : 0 + b ≡ b = omega arith in
    let f : block + 0 ≡ block = omega arith in
    let g : position + 0 ≡ position = omega arith in rw e (rw f (rw g refl))
run-add block (suc a) b position =
    let e : suc a + b ≡ suc (a + b) = omega arith in
    let f : block + suc a ≡ block + 1 + a = omega arith in
    let g : position + suc a ≡ position + 1 + a = omega arith in
    rw e (
      rw f (
        rw g (
          ap (λ t. record { block = block; position = position } ∷ t)
            (run-add (block + 1) a b (position + 1)))))

unmarshal_front :
    (a b c : ℕ) (x y : Bytes) → unmarshal_block (a ∷ b ∷ c ∷ x) ≡ unmarshal_block (a ∷ b ∷ c ∷ y)
unfolding unmarshal_block
unmarshal_front a b c x y = refl

-- An entry that is pushed adds its blocks at the end.
pub range_blocks_push :
    (start position n : ℕ) (buf : Bytes) (e : BlockEntry)
    → length buf ≡ n * 3
    → e.offset < 2 ^ 16
    → range_blocks start position (suc n) (buf ++ marshal_block e)
      ≡ range_blocks start position n buf
        ++ run (start + e.offset) (entry_length e) (position + range_length n buf)
unfolding range_blocks range_length
range_blocks_push start position zero [] e whole fits =
    let g : position + 0 ≡ position = omega arith in
    rw (unmarshal_block-marshal_block e fits) (rw g (append-nil _))
range_blocks_push start position zero (a ∷ buf) e whole fits = absurd (omega arith)
range_blocks_push start position (suc n) (a ∷ b ∷ c ∷ buf) e whole fits =
    let first = unmarshal_block (a ∷ b ∷ c ∷ buf) in
    let len = entry_length first in
    let g : position + (len + range_length n buf) ≡ position + len + range_length n buf =
      omega arith in
    rw (unmarshal_front a b c (buf ++ marshal_block e) buf) (
      rw g (
        ap (λ t. run (start + first.offset) len position ++ t)
          (range_blocks_push start (position + len) n buf e (omega arith) fits)
        ∙ sym (
            append_assoc (run (start + first.offset) len position)
              (range_blocks start (position + len) n buf) _)))
range_blocks_push start position (suc n) [] e whole fits = absurd (omega arith)
range_blocks_push start position (suc n) (a ∷ []) e whole fits = absurd (omega arith)
range_blocks_push start position (suc n) (a ∷ b ∷ []) e whole fits = absurd (omega arith)

pub range_length_push :
    (n : ℕ) (buf : Bytes) (e : BlockEntry)
    → length buf ≡ n * 3
    → e.offset < 2 ^ 16
    → range_length (suc n) (buf ++ marshal_block e) ≡ range_length n buf + entry_length e
unfolding range_length
range_length_push zero [] e whole fits = rw (unmarshal_block-marshal_block e fits) (omega arith)
range_length_push zero (a ∷ buf) e whole fits = absurd (omega arith)
range_length_push (suc n) (a ∷ b ∷ c ∷ buf) e whole fits =
    rw (unmarshal_front a b c (buf ++ marshal_block e) buf)
      (omega (arith, range_length_push n buf e (omega arith) fits))
range_length_push (suc n) [] e whole fits = absurd (omega arith)
range_length_push (suc n) (a ∷ []) e whole fits = absurd (omega arith)
range_length_push (suc n) (a ∷ b ∷ []) e whole fits = absurd (omega arith)

-- What follows the entries of the ranges is not read.
pub range_blocks_append :
    (start position n : ℕ) (buf more : Bytes)
    → n * 3 ≤ length buf
    → range_blocks start position n (buf ++ more) ≡ range_blocks start position n buf
unfolding range_blocks
range_blocks_append start position zero buf more whole = refl
range_blocks_append start position (suc n) (a ∷ b ∷ c ∷ buf) more whole =
    rw (unmarshal_front a b c (buf ++ more) buf) (
      rw
        (range_blocks_append start (position + entry_length (unmarshal_block (a ∷ b ∷ c ∷ buf))) n
          buf more (omega arith))
        refl)
range_blocks_append start position (suc n) [] more whole = absurd (omega arith)
range_blocks_append start position (suc n) (a ∷ []) more whole = absurd (omega arith)
range_blocks_append start position (suc n) (a ∷ b ∷ []) more whole = absurd (omega arith)

-- A further range reads on where the entries of the others end.
pub table_blocks_push :
    (rs : List RangeEntry) (r : RangeEntry) (front back : Bytes)
    → length front ≡ entry_total rs * 3
    → table_blocks (rs ++ r ∷ []) (front ++ back)
      ≡ table_blocks rs front ++ range_blocks r.start_offset r.data_offset r.num_entries back
unfolding table_blocks entry_total
table_blocks_push [] r [] back whole = append-nil _
table_blocks_push [] r (a ∷ front) back whole = absurd (omega arith)
table_blocks_push (q ∷ rs) r front back whole =
    rw (range_blocks_append q.start_offset q.data_offset q.num_entries front back (omega arith)) (
      rw (drop_append_le (q.num_entries * 3) front back (omega arith)) (
        ap (λ t. range_blocks q.start_offset q.data_offset q.num_entries front ++ t)
          (table_blocks_push rs r (drop (q.num_entries * 3) front) back
            (omega (arith, length-drop (q.num_entries * 3) front)))
        ∙ sym (
            append_assoc (range_blocks q.start_offset q.data_offset q.num_entries front)
              (table_blocks rs (drop (q.num_entries * 3) front))
              (range_blocks r.start_offset r.data_offset r.num_entries back))))
