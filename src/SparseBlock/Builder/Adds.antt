-- ===== src/SparseBlock/Builder/Adds.antt =====
-- `AddBlocks` (internal/sparseblock/builder.go) against the blocks that the index of a Builder stands for.
use logblock.Prelude.{
  ℕ, zero, suc, ◌+◌, ◌-◌, ◌^◌, ◌≤◌, ◌<◌, ◌≡◌, refl, sym, ap, subst, ◌∙◌, inl, inr, true, some, ◌++◌,
  arith, ltb, slt, slt-eq-ltb, add64, add64-eq, sub64, sub64-eq, append_assoc, append-nil,
  Bool-cases,
}
use logblock.SparseBlock.Builder.{Filling, next_range, chunk_length, push_entry, fill}
use logblock.SparseBlock.Builder.Decode.{run, run-add}
use logblock.SparseBlock.Builder.Fill.{
  IsFilling, blocks, Adds, pushed, push_entry-Adds, next_range-IsFilling, next_range-blocks,
  next_range-near,
}

Adds-none : (s : Filling) (block : ℕ) → IsFilling s → Adds s block 0 s
unfolding Adds run
Adds-none s block v = (v, sym (append-nil (blocks s)), omega arith)

Adds-some :
    (s t u : Filling) (block n m : ℕ)
    → Adds s block n t
    → Adds t (block + n) m u
    → Adds s block (n + m) u
unfolding Adds
Adds-some s t u block n m first second = (
  second.0,
  second.1
      ∙ (λ i. first.1 i ++ run (block + n) m (first.2 i))
      ∙ append_assoc (blocks s) (run block n s.data_offset) (run (block + n) m (s.data_offset + n))
      ∙ ap (λ t. blocks s ++ t) (sym (run-add block n m s.data_offset)),
  omega (arith, first.2, second.2),
)

-- One iteration of the loop
chunk_Adds :
    (s : Filling) (block n : ℕ)
    → IsFilling s
    → s.curr.start_offset ≤ block
    → block < 2 ^ 63
    → n ≤ 127
    → s.data_offset + n < 2 ^ 63
    → (push_entry block n (next_range block s) ≡ some (pushed (next_range block s) block n))
      × Adds s block n (pushed (next_range block s) block n)
      × ((next_range block s).curr.start_offset ≤ block)
unfolding Adds
chunk_Adds s block n v after small short room =
    let near = next_range-near s block after small in
    let done =
      push_entry-Adds (next_range block s) block n (next_range-IsFilling s block v) near.0 near.1
        small short (omega (arith, near.2)) in
    (
      done.0,
      (
        done.1.0,
        done.1.1 ∙ (λ i. next_range-blocks s block v i ++ run block n (near.2 i)),
        done.1.2 ∙ ap (λ d. d + n) near.2,
      ),
      near.0,
    )

chunk_length-lem :
    (rest : ℕ)
    → rest < 2 ^ 63
    → 0 < rest
    → (chunk_length rest ≤ 127) × (chunk_length rest ≤ rest) × (0 < chunk_length rest)
unfolding chunk_length
chunk_length-lem rest small some_left = ground (arith, slt-eq-ltb 127 rest (omega arith) small)

fill_step :
    (fuel offset len e_offset block n next : ℕ) (s t : Filling)
    → slt e_offset len ≡ true
    → add64 offset e_offset ≡ block
    → chunk_length (sub64 len e_offset) ≡ n
    → add64 e_offset n ≡ next
    → push_entry block n (next_range block s) ≡ some t
    → fill (suc fuel) offset len e_offset s ≡ fill fuel offset len next t
unfolding fill
fill_step fuel offset len e_offset block n next s t more at size after added = cc

Adds-IsFilling : (s : Filling) (block n : ℕ) (t : Filling) → Adds s block n t → IsFilling t
unfolding Adds
Adds-IsFilling s block n t a = a.0

Adds-data :
    (s : Filling) (block n : ℕ) (t : Filling) → Adds s block n t → t.data_offset ≡ s.data_offset + n
unfolding Adds
Adds-data s block n t a = a.2

-- The loop ends, without a panic, with all blocks from an offset on.
unfoldable pub Reaches : ℕ → ℕ → ℕ → ℕ → Filling → Type 0
Reaches fuel offset len e_offset s =
    (s' : Filling) × (fill fuel offset len e_offset s ≡ some s')
    × Adds s (offset + e_offset) (len - e_offset) s'
    × (s'.curr.start_offset ≤ offset + len)

fill_more :
    (fuel offset len e_offset : ℕ) (s : Filling)
    → IsFilling s
    → s.curr.start_offset ≤ offset + e_offset
    → len ≤ suc fuel + e_offset
    → offset + len < 2 ^ 63
    → s.data_offset + (len - e_offset) < 2 ^ 63
    → e_offset < len
    → ((e' : ℕ) (t : Filling)
        → IsFilling t
        → t.curr.start_offset ≤ offset + e'
        → e' ≤ len
        → len ≤ fuel + e'
        → t.data_offset + (len - e') < 2 ^ 63
        → Reaches fuel offset len e' t)
    → Reaches (suc fuel) offset len e_offset s
unfolding Reaches
fill_more fuel offset len e_offset s v after enough small room more go =
    let small_block : offset + e_offset < 2 ^ 63 = omega arith in
    let block = offset + e_offset in
    let n = chunk_length (len - e_offset) in
    let t = pushed (next_range block s) block n in
    let short = chunk_length-lem (len - e_offset) (omega arith) (omega arith) in
    let first = chunk_Adds s block n v after (omega arith) short.0 (omega (arith, short)) in
    let shift : offset + (e_offset + n) ≡ block + n = omega arith in
    let rest =
      go (e_offset + n) t (Adds-IsFilling s block n t first.1) (omega (arith, first.2))
        (omega (arith, short)) (omega (arith, short))
        (omega (arith, short, Adds-data s block n t first.1)) in
    let all : n + (len - (e_offset + n)) ≡ len - e_offset = omega (arith, short) in
    (
      rest.0,
      fill_step fuel offset len e_offset block n (e_offset + n) s t
            (slt-eq-ltb e_offset len (omega arith) (omega arith) ∙ ground arith)
            (add64-eq offset e_offset (omega arith))
            (ap chunk_length (sub64-eq len e_offset (omega arith) (omega arith)))
            (add64-eq e_offset n (omega (arith, short))) first.0
          ∙ rest.1,
      subst (λ m. Adds s block m rest.0) all
          (Adds-some s t rest.0 block n (len - (e_offset + n)) first.1
            (subst (λ b. Adds t b (len - (e_offset + n)) rest.0) shift rest.2)),
      rest.3,
    )

-- The loop does not panic and adds all blocks that are left, when the fuel is at least their number.
pub fill-Adds :
    (fuel offset len e_offset : ℕ) (s : Filling)
    → IsFilling s
    → s.curr.start_offset ≤ offset + e_offset
    → e_offset ≤ len
    → len ≤ fuel + e_offset
    → offset + len < 2 ^ 63
    → s.data_offset + (len - e_offset) < 2 ^ 63
    → Reaches fuel offset len e_offset s
unfolding fill Reaches
fill-Adds zero offset len e_offset s v after within enough small room =
    let none_left : len - e_offset ≡ 0 = omega arith in
    (s, refl, rw none_left (Adds-none s (offset + e_offset) v), omega arith)
fill-Adds (suc fuel) offset len e_offset s v after within enough small room =
    elim (Bool-cases (ltb e_offset len)) [
      | inl more ↦
          fill_more fuel offset len e_offset s v after enough small room (ground (arith, more))
            (λ e' t w near in_len left fits.
              fill-Adds fuel offset len e' t w near in_len left small fits)
      | inr stop ↦
          let none_left : len - e_offset ≡ 0 = ground (arith, stop) in
          (
            s,
            rw (slt-eq-ltb e_offset len (omega arith) (omega arith)) (rw stop refl),
            rw none_left (Adds-none s (offset + e_offset) v),
            omega arith,
          )
    ]
