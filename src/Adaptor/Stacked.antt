-- ===== src/Adaptor/Stacked.antt =====
-- The adaptors of internal/adaptor, one over the other: block access over byte access over blocks.
use logblock.Prelude.{
  ℕ, ◌*◌, ◌/◌, ◌^◌, ◌<◌, ◌≡◌, ap, ◌∙◌, some, true, false, arith, if◌then◌else◌, slt, slt-eq-ltb,
  ◌==◌, Bytes, length,
}
use native.Mathlib.Nat.{mul-div_cancel, mul-mod_left}
use logblock.Adaptor.{
  mul64, sdiv, divides, Status, Read, BlockHoleReader, reader_read_at, reader_next_data,
  reader_next_hole, hole_reader, result, in_blocks, block_read_blocks, block_next_data,
  block_next_hole, wrote, read_writer_write_at, written_blocks, block_write_blocks,
}

mul64-eq : (a b : ℕ) → a * b < 2 ^ 63 → mul64 a b ≡ a * b
unfolding mul64
mul64-eq a b small = omega arith

sdiv-eq : (a b : ℕ) → a < 2 ^ 63 → sdiv a b ≡ a / b
unfolding sdiv
sdiv-eq a b small = ground arith

sdiv-mul64 : (a b : ℕ) → 0 < b → a * b < 2 ^ 63 → sdiv (mul64 a b) b ≡ a
sdiv-mul64 a b positive small =
    ap (λ t. sdiv t b) (mul64-eq a b small) ∙ sdiv-eq (a * b) b small ∙ mul-div_cancel a positive

divides-mul : (a b : ℕ) → a * b < 2 ^ 63 → divides b (a * b) ≡ true
unfolding divides
divides-mul a b small = ground (arith, mul-mod_left a b)

mul64-nonnegative : (a b : ℕ) → a * b < 2 ^ 63 → slt (mul64 a b) 0 ≡ false
mul64-nonnegative a b small =
    ground (arith, mul64-eq a b small, slt-eq-ltb (a * b) 0 small (omega arith))

divides-mul64 : (a b : ℕ) → a * b < 2 ^ 63 → divides b (mul64 a b) ≡ true
divides-mul64 a b small = ap (divides b) (mul64-eq a b small) ∙ divides-mul a b small

-- The block of the offset that a next_data or next_hole answers.
sdiv-answer :
    (next off b : ℕ)
    → 0 < b
    → next * b < 2 ^ 63
    → off * b < 2 ^ 63
    → sdiv (if next == off then mul64 off b else mul64 next b) b ≡ next
sdiv-answer next off b positive small in_range =
    ground (arith, sdiv-mul64 next b positive small, sdiv-mul64 off b positive in_range)

module _ (read_buffer : Bytes → ℕ → Read) (block_size : ℕ) (positive : 0 < block_size)
    (br : BlockHoleReader) (off : ℕ) (in_range : off * block_size < 2 ^ 63) where
  -- NextBlockData through a BlockReader over a HoleReader over a block reader is that of the block reader, if
  -- the offset and the answer, in bytes, fit in an int64.
  pub block_next_data-hole_reader :
      (br.next_block_data off).0 * block_size < 2 ^ 63
      → block_next_data block_size (hole_reader read_buffer block_size br) off
        ≡ some (br.next_block_data off)
  unfolding block_next_data hole_reader reader_next_data in_blocks
  block_next_data-hole_reader small = rw (mul64-nonnegative off block_size in_range) (
      rw (sdiv-mul64 off block_size positive in_range) (
        ap (λ t. some (t, (br.next_block_data off).1))
          (sdiv-answer (br.next_block_data off).0 off block_size positive small in_range)))

  -- NextBlockHole likewise.
  pub block_next_hole-hole_reader :
      (br.next_block_hole off).0 * block_size < 2 ^ 63
      → block_next_hole block_size (hole_reader read_buffer block_size br) off
        ≡ some (br.next_block_hole off)
  unfolding block_next_hole hole_reader reader_next_hole in_blocks
  block_next_hole-hole_reader small = rw (mul64-nonnegative off block_size in_range) (
      rw (sdiv-mul64 off block_size positive in_range) (
        ap (λ t. some (t, (br.next_block_hole off).1))
          (sdiv-answer (br.next_block_hole off).0 off block_size positive small in_range)))

  -- ReadBlocks of whole blocks likewise: the bytes, the count and the error are those of the block reader.
  pub block_read_blocks-hole_reader :
      (n : ℕ)
      → n * block_size < 2 ^ 63
      → (br.read_blocks (n * block_size) off).count * block_size < 2 ^ 63
      → block_read_blocks block_size (hole_reader read_buffer block_size br) (n * block_size) off
        ≡ some (result (br.read_blocks (n * block_size) off))
  unfolding block_read_blocks hole_reader reader_read_at
  block_read_blocks-hole_reader n whole small =
      let r = br.read_blocks (n * block_size) off in
      rw (divides-mul n block_size whole) (
        rw (mul64-nonnegative off block_size in_range) (
          rw (divides-mul64 off block_size in_range) (
            rw (sdiv-mul64 off block_size positive in_range) (
              ap (λ c. some (result (record r { count = c })))
                (sdiv-mul64 r.count block_size positive small)))))

-- WriteBlocks of whole blocks through a BlockReadWriter over a readWriter over a block writer writes to the
-- block writer what it is given, and returns its count and error, if the offset and the count, in bytes,
-- fit in an int64.
pub block_write_blocks-read_writer_write_at :
    {S : Type 0} (write_blocks : Bytes → ℕ → S → (ℕ × Status) × S) (block_size : ℕ)
    → 0 < block_size
    → (b : Bytes) (n off : ℕ) (s : S) → length b ≡ n * block_size
    → n * block_size < 2 ^ 63
    → off * block_size < 2 ^ 63
    → (write_blocks b off s).0.0 * block_size < 2 ^ 63
    → block_write_blocks (read_writer_write_at write_blocks block_size) block_size b off s
      ≡ some (wrote (write_blocks b off s).0.0 (write_blocks b off s).0.1, (write_blocks b off s).1)
unfolding block_write_blocks read_writer_write_at written_blocks
block_write_blocks-read_writer_write_at write_blocks block_size positive b n off s size whole
      in_range small =
    let fits : divides block_size (length b) ≡ true =
      ap (divides block_size) size ∙ divides-mul n block_size whole in
    rw fits (
      rw (mul64-nonnegative off block_size in_range) (
        rw (divides-mul64 off block_size in_range) (
          rw (sdiv-mul64 off block_size positive in_range) (
            ap (λ c. some (wrote c (write_blocks b off s).0.1, (write_blocks b off s).1))
              (sdiv-mul64 (write_blocks b off s).0.0 block_size positive small)))))
