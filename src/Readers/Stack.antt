-- ===== src/Readers/Stack.antt =====
-- A stack of sound readers (internal/readers/stacked_block_reader.go) shows each block as the first reader
-- that has it.
use logblock.Prelude.{
  ℕ, zero, suc, ◌+◌, ◌*◌, ◌≤◌, ◌<◌, ◌≡◌, refl, ap, ◌∙◌, Option, none, some, List, [], ◌∷◌, ◌++◌,
  arith, Bytes, length, replicate, length-replicate, map,
}
use native.Mathlib.Nat.{mul-div_cancel, mul-mod_left}
use logblock.Adaptor.{done}
use logblock.Readers.{returned, read_zeros, read_blocks_from, result, stack_read_blocks}
use logblock.Readers.Views.{content, or_below, SoundReader}
use logblock.Readers.Loop.{read_loop_lem}

module _ (block_size : ℕ) where
  -- The block of the first reader that has it, or zeros.
  unfoldable pub top : List (SoundReader block_size) → ℕ → Bytes
  top [] b = replicate block_size 0
  top (tr ∷ trs) b = or_below (tr.view b) (top trs b)

  length-or_below :
      (tr : SoundReader block_size) (b : ℕ) (below : Bytes)
      → length below ≡ block_size
      → length (or_below (tr.view b) below) ≡ block_size
  length-or_below tr b below whole = by_view (tr.view b) refl
    where
      by_view : (v : Option Bytes) → tr.view b ≡ v → length (or_below v below) ≡ block_size
      by_view none e = whole
      by_view (some d) e = tr.view_length b d e

  length-top : (trs : List (SoundReader block_size)) (b : ℕ) → length (top trs b) ≡ block_size
  unfolding top
  length-top [] b = length-replicate block_size 0
  length-top (tr ∷ trs) b = length-or_below tr b (top trs b) (length-top trs b)

  replicate-add : (m n : ℕ) → replicate {A = ℕ} (m + n) 0 ≡ replicate m 0 ++ replicate n 0
  replicate-add zero n = let e : 0 + n ≡ n = omega arith in rw e refl
  replicate-add (suc m) n =
      let e : suc m + n ≡ suc (m + n) = omega arith in rw e (ap (λ t. 0 ∷ t) (replicate-add m n))

  zero_content : (off k : ℕ) → replicate (k * block_size) 0 ≡ content (top []) off k
  unfolding content top
  zero_content off zero = let e : 0 * block_size ≡ 0 = omega arith in rw e refl
  zero_content off (suc k) =
      let e : suc k * block_size ≡ block_size + k * block_size = omega arith in
      rw e (
        replicate-add block_size (k * block_size)
        ∙ ap (λ t. replicate block_size 0 ++ t) (zero_content (off + 1) k))

  read_blocks_from_lem :
      (num_blocks : ℕ) (trs : List (SoundReader block_size))
      → 0 < block_size
      → (k off : ℕ) → off + k ≤ num_blocks
      → read_blocks_from block_size num_blocks (map (λ tr. tr.reader) trs) (k * block_size) off
        ≡ returned (content (top trs) off k) k done
  unfolding read_blocks_from read_zeros top
  read_blocks_from_lem num_blocks [] positive k off inside =
      rw (mul-div_cancel k positive) (λ i. returned (zero_content off k i) k done)
  read_blocks_from_lem num_blocks (tr ∷ trs) positive k off inside =
      let e : 0 + k ≡ k = omega arith in
      rw (mul-div_cancel k positive) (
        read_loop_lem block_size num_blocks positive tr
          (read_blocks_from block_size num_blocks (map (λ tr. tr.reader) trs)) (top trs)
          (read_blocks_from_lem num_blocks trs positive) (length-top trs) (suc k) k off [] 0
          (omega arith) inside
        ∙ λ i. returned (content (top (tr ∷ trs)) off k) (e i) done)

  -- A read of whole blocks, all inside the device, from a stack of sound readers ends without an error and
  -- gives each block as the first reader of the stack that has it does, or as zeros.
  pub stack_read_blocks-top :
      (num_blocks : ℕ) (trs : List (SoundReader block_size)) (off k : ℕ)
      → 0 < block_size
      → off + k ≤ num_blocks
      → stack_read_blocks block_size num_blocks (map (λ tr. tr.reader) trs) (k * block_size) off
        ≡ result (returned (content (top trs) off k) k done)
  unfolding stack_read_blocks
  stack_read_blocks-top num_blocks trs off k positive inside =
      rw (mul-mod_left k block_size)
        (ap result (read_blocks_from_lem num_blocks trs positive k off inside))
