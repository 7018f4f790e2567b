-- ===== src/Readers/Loop.antt =====
-- The loop of `readBlocksFrom` (internal/readers/stacked_block_reader.go) over one sound reader.
use logblock.Prelude.{
  ℕ, zero, suc, ◌+◌, ◌-◌, ◌*◌, ◌≤◌, ◌<◌, ◌≡◌, ◌≢◌, refl, sym, ap, ◌∙◌, inl, inr, true, false,
  Option, none, some, List, ◌++◌, arith, min, Bytes, length, take, take_length, append-nil,
  append_assoc, length-append, ltb, leb, ◌==◌, if◌then◌else◌, Bool-cases,
}
use native.Mathlib.Nat.{add-mul, mul-div_cancel, mul-le-mul_right, mul-pos}
use logblock.Adaptor.{Status, done, eof, failed}
use logblock.Readers.{
  StackRead, returned, length_up_to, after_below, read_below, read_hole, after_data, read_data,
  read_loop,
}
use logblock.Readers.Views.{content, content-add, content_agree, or_below, SoundReader}

pub sub_mul : (k m b : ℕ) → m ≤ k → k * b - m * b ≡ (k - m) * b
sub_mul k m b h =
    let e : k ≡ m + (k - m) = omega arith in
    ap (λ t. t * b - m * b) e ∙ omega (arith, add-mul m (k - m) b)

pub take_all {ℓ} : {A : Type ℓ} (n : ℕ) (xs : List A) → length xs ≡ n → take n xs ≡ xs
take_all n xs e = ap (λ t. take t xs) (sym e) ∙ take_length xs

pub length_up_to_lem :
    (b limit off k : ℕ) → 0 < b → length_up_to b limit off (k * b) ≡ min (limit - off) k * b
unfolding length_up_to
length_up_to_lem b limit off k positive =
    rw (mul-div_cancel k positive) (elim (Bool-cases (ltb (limit - off) k)) [
      | inl less ↦
          let e : min (limit - off) k ≡ limit - off = ground (arith, less) in rw less (rw e refl)
      | inr more ↦ let e : min (limit - off) k ≡ k = ground (arith, more) in rw more (rw e refl)
    ])

some-none : (d : Bytes) → some d ≢ none
some-none d e = cc

module _ (block_size num_blocks : ℕ) (positive : 0 < block_size) (tr : SoundReader block_size)
    (below : ℕ → ℕ → StackRead) (g : ℕ → Bytes)
    (below_lem : (k off : ℕ)
      → off + k ≤ num_blocks
      → below (k * block_size) off ≡ returned (content g off k) k done)
    (g_length : (b : ℕ) → length (g b) ≡ block_size) where
  -- What the reader and those below it show
  abbrev pub shown : ℕ → Bytes
  shown b = or_below (tr.view b) (g b)

  view_shown : (b : ℕ) (d : Bytes) → tr.view b ≡ some d → tr.view b ≡ some (shown b)
  view_shown b d e = e ∙ sym (ap (λ v. some (or_below v (g b))) e)

  shown-none : (b : ℕ) → tr.view b ≡ none → g b ≡ shown b
  shown-none b e = sym (ap (λ v. or_below v (g b)) e)

  -- The rest of the loop reads fewer than `bound` blocks as they are shown.
  abbrev Continues : (ℕ → ℕ → Bytes → ℕ → StackRead) → ℕ → Type 0
  Continues next bound =
      (k off : ℕ) (acc : Bytes) (n : ℕ)
      → k < bound
      → off + k ≤ num_blocks
      → next (k * block_size) off acc n ≡ returned (acc ++ content shown off k) (n + k) done

  -- A first part, and the rest after it
  joined :
      (m k off : ℕ) (acc : Bytes) (n : ℕ)
      → m ≤ k
      → returned
          ((acc ++ content shown off m) ++ content shown (off + m) (k - m))
          (n + m + (k - m))
          done
        ≡ returned (acc ++ content shown off k) (n + k) done
  joined m k off acc n h =
      let e : m + (k - m) ≡ k = omega arith in
      let c : n + m + (k - m) ≡ n + k = omega arith in
      let b =
        append_assoc acc (content shown off m) (content shown (off + m) (k - m))
        ∙ ap (λ t. acc ++ t) (sym (content-add shown off m (k - m)) ∙ ap (content shown off) e) in
      λ i. returned (b i) (c i) done

  below_step :
      (next : ℕ → ℕ → Bytes → ℕ → StackRead) (bound k off : ℕ) (acc : Bytes) (n limit : ℕ)
      → Continues next bound
      → k ≤ bound
      → 0 < k
      → off + k ≤ num_blocks
      → off < limit
      → ((b : ℕ) → off ≤ b → b < limit → tr.view b ≡ none)
      → read_below block_size num_blocks tr.reader below next (k * block_size) off acc n limit
        ≡ returned (acc ++ content shown off k) (n + k) done
  unfolding read_below after_below
  below_step next bound k off acc n limit rest small some_left inside ahead hidden =
      let m = min (limit - off) k in
      let m_le : m ≤ k = omega arith in
      let not_before : ltb limit off ≡ false = ground arith in
      let same : content g off m ≡ content shown off m =
        content_agree g shown off m
          (λ b above under. shown-none b (hidden b above (omega arith))) in
      rw not_before (
        rw (length_up_to_lem block_size limit off k positive) (
          rw (below_lem m off (omega arith)) (
            rw (sub_mul k m block_size m_le) (
              rw same (
                rest (k - m) (off + m) (acc ++ content shown off m) (n + m) (omega arith)
                  (omega arith)
                ∙ joined m k off acc n m_le)))))

  -- The next data of a block that the reader does not have is after it.
  data_after :
      (off next : ℕ) (d : Bytes)
      → tr.view off ≡ none
      → off ≤ next
      → tr.view next ≡ some d
      → off < next
  data_after off next d hidden h e = elim (Bool-cases (off == next)) [
    | inl same ↦
        let p : off ≡ next = ground (arith, same) in
        absurd (some-none d (sym e ∙ ap tr.view (sym p) ∙ hidden))
    | inr other ↦ ground (arith, other)
  ]

  -- From a block that the reader does not have
  hole_step :
      (next : ℕ → ℕ → Bytes → ℕ → StackRead) (bound k off : ℕ) (acc : Bytes) (n : ℕ)
      → Continues next bound
      → k ≤ bound
      → 0 < k
      → off + k ≤ num_blocks
      → tr.view off ≡ none
      → read_hole block_size num_blocks tr.reader below next (k * block_size) off acc n
        ≡ returned (acc ++ content shown off k) (n + k) done
  unfolding read_hole
  hole_step next bound k off acc n rest small some_left inside hidden =
      hole_cases (tr.reader.next_block_data off).1 refl
    where
      hole_cases :
          (s : Status)
          → (tr.reader.next_block_data off).1 ≡ s
          → read_hole block_size num_blocks tr.reader below next (k * block_size) off acc n
            ≡ returned (acc ++ content shown off k) (n + k) done
      hole_cases done e =
          let d = tr.data_done off e in
          rw (e, read_hole)
            (below_step next bound k off acc n (tr.reader.next_block_data off).0 rest small
              some_left inside
              (data_after off (tr.reader.next_block_data off).0 d.2.0 hidden d.0 d.2.1) d.1)
      hole_cases eof e =
          rw (e, read_hole)
            (below_step next bound k off acc n num_blocks rest small some_left inside (omega arith)
              (λ b above under. tr.data_eof off e b above))
      hole_cases failed e = absurd (tr.data_ok off e)

  fits_lem : (k m : ℕ) → m ≤ k → ltb (k * block_size) (m * block_size) ≡ false
  fits_lem k m h = ground (arith, mul-le-mul_right block_size h)

  ==_self : (m : ℕ) → (m == m) ≡ true
  ==_self m = ground arith

  length_shown : (b : ℕ) → length (shown b) ≡ block_size
  length_shown b = shown_cases (tr.view b) refl
    where
      shown_cases : (v : Option Bytes) → tr.view b ≡ v → length (or_below v (g b)) ≡ block_size
      shown_cases none e = g_length b
      shown_cases (some d) e = tr.view_length b d e

  length-content : (off k : ℕ) → length (content shown off k) ≡ k * block_size
  unfolding content
  length-content off zero = omega arith
  length-content off (suc k) =
      length-append (shown off) (content shown (off + 1) k)
      ∙ omega (arith, length_shown off, length-content (off + 1) k)

  -- The result of the read of the data, which reads all of it
  data_result :
      (next : ℕ → ℕ → Bytes → ℕ → StackRead) (k m off : ℕ) (acc : Bytes) (n : ℕ) (buf : Bytes)
      (s : Status)
      → m ≤ k
      → s ≢ failed
      → length buf ≡ m * block_size
      → after_data block_size num_blocks tr.reader below next
          (k * block_size)
          off
          acc
          n
          m
          (record { buf = buf; count = m; status = s })
        ≡ (if (k - m) * block_size == 0
            then returned (acc ++ buf) (n + m) done
            else read_hole block_size num_blocks tr.reader below next
                ((k - m) * block_size)
                (off + m)
                (acc ++ buf)
                (n + m))
  unfolding after_data
  data_result next k m off acc n buf done m_le ok whole = rw (fits_lem k m m_le) (
      rw (==_self m)
        (rw (take_all (m * block_size) buf whole) (rw (sub_mul k m block_size m_le) refl)))
  data_result next k m off acc n buf eof m_le ok whole = rw (fits_lem k m m_le) (
      rw (==_self m)
        (rw (take_all (m * block_size) buf whole) (rw (sub_mul k m block_size m_le) refl)))
  data_result next k m off acc n buf failed m_le ok whole = absurd (ok refl)

  hole_at : (off hole k : ℕ) → off < hole → min (hole - off) k < k → off + min (hole - off) k ≡ hole
  hole_at off hole k ahead more = omega arith

  -- After data: the read is done, or goes on at a block that the reader does not have.
  data_rest :
      (next : ℕ → ℕ → Bytes → ℕ → StackRead) (bound k m off : ℕ) (acc : Bytes) (n : ℕ)
      → Continues next bound
      → k ≤ bound
      → m ≤ k
      → off + k ≤ num_blocks
      → 0 < m
      → (m < k → tr.view (off + m) ≡ none)
      → (if (k - m) * block_size == 0
          then returned (acc ++ content shown off m) (n + m) done
          else read_hole block_size num_blocks tr.reader below next
              ((k - m) * block_size)
              (off + m)
              (acc ++ content shown off m)
              (n + m))
        ≡ returned (acc ++ content shown off k) (n + k) done
  data_rest next bound k m off acc n rest small m_le inside pos hidden =
      elim (Bool-cases (ltb m k)) [
        | inl more ↦
            let less : m < k = ground (arith, more) in
            let left : 0 < (k - m) * block_size = mul-pos (omega arith) positive in
            let test : ((k - m) * block_size == 0) ≡ false = ground arith in
            rw test (
              hole_step next bound (k - m) (off + m) (acc ++ content shown off m) (n + m) rest
                (omega arith) (omega arith) (omega arith) (hidden less)
              ∙ joined m k off acc n m_le)
        | inr all ↦
            let e : m ≡ k = ground (arith, all) in
            let none_left : k - k ≡ 0 = omega arith in
            let zero_left : 0 * block_size ≡ 0 = omega arith in
            rw e (rw none_left (rw zero_left refl))
      ]

  -- From a block that the reader has
  data_step :
      (next : ℕ → ℕ → Bytes → ℕ → StackRead) (bound k off : ℕ) (acc : Bytes) (n : ℕ)
      → Continues next bound
      → k ≤ bound
      → 0 < k
      → off + k ≤ num_blocks
      → off < (tr.reader.next_block_hole off).0
      → read_data block_size num_blocks tr.reader below next
          (k * block_size)
          off
          acc
          n
          (tr.reader.next_block_hole off).0
        ≡ returned (acc ++ content shown off k) (n + k) done
  unfolding read_data
  data_step next bound k off acc n rest small some_left inside ahead =
      let hole = (tr.reader.next_block_hole off).0 in
      let m = min (hole - off) k in
      let r = tr.reader.read_blocks (m * block_size) off in
      let got =
        tr.read_blocks off m shown (λ b above under.
          let d = tr.hole_data off b above (omega arith) in view_shown b d.0 d.1) in
      let e : r ≡ record { buf = content shown off m; count = m; status = r.status } =
        λ i. record { buf = got.0 i; count = got.1 i; status = r.status } in
      rw (length_up_to_lem block_size hole off k positive) (
        rw (mul-div_cancel m positive) (
          ap (after_data block_size num_blocks tr.reader below next (k * block_size) off acc n m) e
          ∙ data_result next k m off acc n (content shown off m) r.status (omega arith) got.2
              (length-content off m)
          ∙ data_rest next bound k m off acc n rest small (omega arith) inside (omega arith)
              (λ more. ap tr.view (hole_at off hole k (omega arith) more) ∙ tr.hole_none off)))

  empty_content : (off : ℕ) (acc : Bytes) → acc ≡ acc ++ content shown off 0
  unfolding content
  empty_content off acc = sym (append-nil acc)

  -- The loop reads all blocks as they are shown, when there is more fuel than blocks.
  pub read_loop_lem :
      (fuel k off : ℕ) (acc : Bytes) (n : ℕ)
      → k < fuel
      → off + k ≤ num_blocks
      → read_loop block_size num_blocks tr.reader below fuel (k * block_size) off acc n
        ≡ returned (acc ++ content shown off k) (n + k) done
  unfolding read_loop
  read_loop_lem zero k off acc n enough inside = absurd (omega arith)
  read_loop_lem (suc fuel) zero off acc n enough inside =
      let e : 0 * block_size ≡ 0 = omega arith in
      let c : n ≡ n + 0 = omega arith in rw e (λ i. returned (empty_content off acc i) (c i) done)
  read_loop_lem (suc fuel) (suc j) off acc n enough inside =
      let k = suc j in
      let some_left : 0 < k * block_size = mul-pos (omega arith) positive in
      let more : (k * block_size == 0) ≡ false = ground arith in
      let before : leb num_blocks off ≡ false = ground arith in
      let rest : Continues (read_loop block_size num_blocks tr.reader below fuel) fuel =
        λ k off acc n. read_loop_lem fuel k off acc n in
      let hole = (tr.reader.next_block_hole off).0 in
      rw more (
        rw before (elim (Bool-cases (ltb off hole)) [
          | inl ahead ↦ rw ahead (
              data_step (read_loop block_size num_blocks tr.reader below fuel) fuel k off acc n rest
                (omega arith) (omega arith) inside (ground (arith, ahead)))
          | inr at ↦
              let here : hole ≡ off = ground (arith, at, tr.hole_le off) in
              rw at (
                hole_step (read_loop block_size num_blocks tr.reader below fuel) fuel k off acc n
                  rest (omega arith) (omega arith) inside
                  (ap tr.view (sym here) ∙ tr.hole_none off))
        ]))
