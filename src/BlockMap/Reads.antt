-- ===== src/BlockMap/Reads.antt =====
-- `ReadBlocks` of internal/blockmap/reader.go over sound tables.
use logblock.Prelude.{
  ℕ, zero, suc, ◌+◌, ◌-◌, ◌*◌, ◌≤◌, ◌<◌, ◌≡◌, sym, ap, ◌∙◌, inl, inr, false, Option, none, some, [],
  ◌++◌, arith, ltb, ◌==◌, Bytes, length, replicate, append-nil, append_assoc, length-append,
  length-replicate, Bool-cases, Option-cases,
}
use native.Mathlib.Nat.{mul-div_cancel, mul-mod_left, mul-pos, mul-le-mul_right}
use logblock.Adaptor.{done}
use logblock.Readers.Views.{content, content-add, or_below, SoundReader}
use logblock.Readers.Loop.{sub_mul, take_all}
use logblock.RangeMap.Index.{RangeIndex}
use logblock.BlockMap.{
  FreeSet, BlockMap, find, blocks_read, run_length, after_table, blocks_loop, read_blocks,
}

module _ (I : RangeIndex) (F : FreeSet) (r : BlockMap I F) where
  run_length_le : (br off rem : ℕ) → run_length I F r br off rem ≤ rem
  unfolding run_length
  run_length_le br off zero = omega arith
  run_length_le br off (suc rem) = ground (arith, run_length_le br (off + 1) rem)

  -- All blocks of the run are found in the table.
  run_length_found :
      (br off rem b : ℕ) → off ≤ b → b < off + run_length I F r br off rem → find I F r b ≡ some br
  unfolding run_length
  run_length_found br off zero b above under = absurd (omega arith)
  run_length_found br off (suc rem) b above under = elim (Option-cases (find I F r off)) [
    | inl e ↦ absurd (ground (arith, e))
    | inr (next, e) ↦ elim (Bool-cases (next == br)) [
      | inr other ↦ absurd (ground (arith, e, other))
      | inl same ↦ elim (Bool-cases (off == b)) [
        | inl here ↦ ground (arith, e, same, here)
        | inr later ↦
            run_length_found br (off + 1) rem b (ground (arith, later)) (ground (arith, e, same))
      ]
    ]
  ]

  run_found :
      (off br k : ℕ)
      → find I F r off ≡ some br
      → (b : ℕ) → off ≤ b
      → b < off + (1 + run_length I F r br (off + 1) (k - 1))
      → find I F r b ≡ some br
  run_found off br k e b above under = elim (Bool-cases (off == b)) [
    | inl here ↦ let at : off ≡ b = ground (arith, here) in ap (find I F r) (sym at) ∙ e
    | inr later ↦ run_length_found br (off + 1) (k - 1) b (ground (arith, later)) (omega arith)
  ]

  module _ (tables : ℕ → SoundReader r.block_size) (positive : 0 < r.block_size)
      (backed : (b br : ℕ) → find I F r b ≡ some br → (d : Bytes) × ((tables br).view b ≡ some d))
      (reads_done : (br off k : ℕ)
        → ((b : ℕ) → off ≤ b → b < off + k → (d : Bytes) × ((tables br).view b ≡ some d))
        → ((tables br).reader.read_blocks (k * r.block_size) off).status ≡ done) where
    -- The block of the table that is found, or zeros
    abbrev pub of_table : Option ℕ → ℕ → Bytes
    of_table none b = replicate r.block_size 0
    of_table (some br) b = or_below ((tables br).view b) (replicate r.block_size 0)

    abbrev pub block_at : ℕ → Bytes
    block_at b = of_table (find I F r b) b

    of_table-view : (b br : ℕ) → find I F r b ≡ some br → (tables br).view b ≡ some (block_at b)
    of_table-view b br e =
        let d = backed b br e in
        let at : block_at b ≡ d.0 =
          ap (λ f. of_table f b) e ∙ ap (λ v. or_below v (replicate r.block_size 0)) d.1 in
        d.1 ∙ ap (λ t. some t) (sym at)

    length-block_at : (b : ℕ) → length (block_at b) ≡ r.block_size
    length-block_at b = elim (Option-cases (find I F r b)) [
      | inl e ↦ ap (λ f. length (of_table f b)) e ∙ length-replicate r.block_size 0
      | inr (br, e) ↦ (tables br).view_length b (block_at b) (of_table-view b br e)
    ]

    length-content_at : (off k : ℕ) → length (content block_at off k) ≡ k * r.block_size
    unfolding content
    length-content_at off zero = omega arith
    length-content_at off (suc k) =
        length-append (block_at off) (content block_at (off + 1) k)
        ∙ omega (arith, length-block_at off, length-content_at (off + 1) k)

    abbrev Reads : ℕ → Type 0
    Reads fuel =
        (k off : ℕ) (acc : Bytes) (n : ℕ)
        → k < fuel
        → blocks_loop I F (λ br. (tables br).reader) r fuel (k * r.block_size) off acc n
          ≡ blocks_read (acc ++ content block_at off k) (n + k) done

    joined :
        (m k off : ℕ) (acc : Bytes) (n : ℕ)
        → m ≤ k
        → blocks_read
            ((acc ++ content block_at off m) ++ content block_at (off + m) (k - m))
            (n + m + (k - m))
            done
          ≡ blocks_read (acc ++ content block_at off k) (n + k) done
    joined m k off acc n h =
        let e : m + (k - m) ≡ k = omega arith in
        let c : n + m + (k - m) ≡ n + k = omega arith in
        let b =
          append_assoc acc (content block_at off m) (content block_at (off + m) (k - m))
          ∙ ap (λ t. acc ++ t)
              (sym (content-add block_at off m (k - m)) ∙ ap (content block_at off) e) in
        λ i. blocks_read (b i) (c i) done

    -- A run of blocks of one table
    table_step :
        (fuel k off br : ℕ) (acc : Bytes) (n m : ℕ)
        → Reads fuel
        → k ≤ fuel
        → 0 < m
        → m ≤ k
        → ((b : ℕ) → off ≤ b → b < off + m → find I F r b ≡ some br)
        → after_table I F
            (λ br. (tables br).reader)
            r
            (blocks_loop I F (λ br. (tables br).reader) r fuel)
            (k * r.block_size)
            off
            acc
            n
            ((tables br).reader.read_blocks (m * r.block_size) off)
          ≡ blocks_read (acc ++ content block_at off k) (n + k) done
    unfolding after_table
    table_step fuel k off br acc n m rest small pos m_le run =
        let a = (tables br).reader.read_blocks (m * r.block_size) off in
        let got =
          (tables br).read_blocks off m block_at
            (λ b above under. of_table-view b br (run b above under)) in
        let e : a ≡ record { buf = content block_at off m; count = m; status = done } = λ i.
          record {
            buf = got.0 i;
            count = got.1 i;
            status =
                reads_done br off m
                  (λ b above under. (block_at b, of_table-view b br (run b above under))) i;
          } in
        let fits : ltb (k * r.block_size) (m * r.block_size) ≡ false =
          ground (arith, mul-le-mul_right r.block_size m_le) in
        let all = take_all (m * r.block_size) (content block_at off m) (length-content_at off m) in
        ap
          (after_table I F (λ br. (tables br).reader) r
            (blocks_loop I F (λ br. (tables br).reader) r fuel) (k * r.block_size) off acc n)
          e
        ∙ rw fits (
            rw all (
              rw (sub_mul k m r.block_size m_le) (
                rest (k - m) (off + m) (acc ++ content block_at off m) (n + m) (omega arith)
                ∙ joined m k off acc n m_le)))

    empty_content : (off : ℕ) (acc : Bytes) → acc ≡ acc ++ content block_at off 0
    unfolding content
    empty_content off acc = sym (append-nil acc)

    one_block :
        (off : ℕ) → find I F r off ≡ none → replicate r.block_size 0 ≡ content block_at off 1
    unfolding content
    one_block off e = sym (append-nil (block_at off) ∙ ap (λ f. of_table f off) e)

    blocks_loop-Reads : (fuel : ℕ) → Reads fuel
    unfolding blocks_loop
    blocks_loop-Reads zero k off acc n enough = absurd (omega arith)
    blocks_loop-Reads (suc fuel) zero off acc n enough =
        let e : 0 * r.block_size ≡ 0 = omega arith in
        let c : n ≡ n + 0 = omega arith in
        rw e (λ i. blocks_read (empty_content off acc i) (c i) done)
    blocks_loop-Reads (suc fuel) (suc j) off acc n enough =
        let k = suc j in
        let some_left : 0 < k * r.block_size = mul-pos (omega arith) positive in
        let more : (k * r.block_size == 0) ≡ false = ground arith in
        rw more (elim (Option-cases (find I F r off)) [
          | inl e ↦
              let one : 1 * r.block_size ≡ r.block_size = omega arith in
              let left : k * r.block_size - r.block_size ≡ (k - 1) * r.block_size =
                ap (λ t. k * r.block_size - t) (sym one) ∙ sub_mul k 1 r.block_size (omega arith) in
              rw (e, blocks_loop)
                (rw left (
                  rw (one_block off e) (
                    blocks_loop-Reads fuel (k - 1) (off + 1) (acc ++ content block_at off 1) (n + 1)
                      (omega arith)
                    ∙ joined 1 k off acc n (omega arith))))
          | inr (br, e) ↦
              let m = 1 + run_length I F r br (off + 1) (k - 1) in
              let m_le : m ≤ k = omega (arith, run_length_le br (off + 1) (k - 1)) in
              rw (e, blocks_loop)
                (rw (mul-div_cancel k positive) (
                  table_step fuel k off br acc n m (blocks_loop-Reads fuel) (omega arith)
                    (omega arith) m_le (run_found off br k e)))
        ])

    -- On a block map whose found tables are sound, have the blocks that they are found for, and read runs of blocks
    -- that they have without io.EOF, ReadBlocks of whole blocks ends without an error and gives each block as its table has it,
    -- or as zeros where no table is found.
    pub read_blocks-content :
        (k off : ℕ)
        → read_blocks I F (λ br. (tables br).reader) r (k * r.block_size) off
          ≡ blocks_read (content block_at off k) k done
    unfolding read_blocks
    read_blocks-content k off =
        let e : 0 + k ≡ k = omega arith in
        rw (mul-mod_left k r.block_size) (
          rw (mul-div_cancel k positive) (
            blocks_loop-Reads (suc k) k off [] 0 (omega arith) ∙ λ i.
            blocks_read (content block_at off k) (e i) done))
