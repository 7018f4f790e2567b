-- ===== src/Wal/ReadAt/Loop.antt =====
-- One iteration of a read of log data (internal/wal) gives what the index shows of the device.
use logblock.Prelude.{
  ℕ, zero, suc, ◌+◌, ◌-◌, ◌≤◌, ◌<◌, ◌^◌, ◌≡◌, ◌≢◌, refl, sym, ap, ◌∙◌, inl, inr, true, false,
  Option, none, some, [], ◌∷◌, ◌++◌, arith, ◌==◌, Bytes, length, take, drop, replicate, get_or,
  add64, add64-eq, sub64-eq, slt-eq-ltb, append_assoc, Bool-cases,
}
use logblock.Readers.Views.{content-add}
use logblock.RangeMap.RadixTree.{RadixTree}
use logblock.RangeMap.Spec.{NextMapped}
use logblock.RangeMap.Extent
use logblock.Wal.{LogRecord}
use logblock.Wal.ReadAt.{complete, LogRead, ReaderAt, Rest, at_most, read_bytes, read_gap}
use logblock.Wal.ReadAt.Backed.{
  window, record_byte, shown_in, or_zero, device, IsBacked, slice-window, window_moved,
  window-replicate,
}

pub at_most_bounds :
    (n rem : ℕ)
    → n < 2 ^ 63
    → rem < 2 ^ 63
    → 0 < n
    → 0 < rem
    → (0 < at_most n rem) × (at_most n rem ≤ n) × (at_most n rem ≤ rem)
unfolding at_most
at_most_bounds n rem hn hr pn pr = ground (arith, slt-eq-ltb rem n)

take_twice : (k : ℕ) (xs : Bytes) → take k (take k xs) ≡ take k xs
take_twice zero xs = refl
take_twice (suc k) [] = refl
take_twice (suc k) (x ∷ xs) = ap (λ t. x ∷ t) (take_twice k xs)

found_record : (o : Option LogRecord) → o ≢ none → (lr : LogRecord) × (o ≡ some lr)
found_record none h = absurd (h refl)
found_record (some lr) h = (lr, refl)

-- Complete reads
abbrev pub read_all : Bytes → ℕ → LogRead
read_all buf n = record { buf = buf; count = n; status = complete }

module _ (T : RadixTree LogRecord) (m : T.Tree) (log : Bytes) (backed : IsBacked T m log)
    (ra : ReaderAt)
    (reads : (o k : ℕ) → o + k ≤ length log → ra o k ≡ (take k (drop o log), true)) where
  abbrev pub Reads : Rest → ℕ → Type 0
  Reads next bound =
      (len off : ℕ) (acc : Bytes) (n : ℕ)
      → len < bound
      → off + len < 2 ^ 63
      → ((x : ℕ) × (off + len ≤ suc x) × (Extent.get T m x ≢ none))
      → next len off acc n ≡ read_all (acc ++ window (device T m log) off len) (n + len)

  -- `k` bytes and then the rest
  joined :
      (next : Rest) (bound len off k : ℕ) (acc got : Bytes) (n : ℕ)
      → Reads next bound
      → 0 < k
      → k ≤ len
      → len ≤ bound
      → off + len < 2 ^ 63
      → ((x : ℕ) × (off + len ≤ suc x) × (Extent.get T m x ≢ none))
      → got ≡ window (device T m log) off k
      → next (len - k) (add64 off k) (acc ++ got) (n + k)
        ≡ read_all (acc ++ window (device T m log) off len) (n + len)
  joined next bound len off k acc got n rest pos le small fits (x, last, mapped) e =
      let f = device T m log in
      let sum : off + k + (len - k) ≡ off + len = omega arith in
      let whole : k + (len - k) ≡ len = omega arith in
      let count : n + k + (len - k) ≡ n + len = omega arith in
      let bytes : (acc ++ got) ++ window f (off + k) (len - k) ≡ acc ++ window f off len =
        append_assoc acc got (window f (off + k) (len - k))
        ∙ ap (λ t. acc ++ t)
            (ap (λ t. t ++ window f (off + k) (len - k)) e
              ∙ sym (content-add (λ y. f y ∷ []) off k (len - k))
              ∙ ap (window f off) whole) in
      ap (λ o. next (len - k) o (acc ++ got) (n + k)) (add64-eq off k (omega arith))
      ∙ rest (len - k) (off + k) (acc ++ got) (n + k) (omega arith) (omega arith)
          (x, omega arith, mapped)
      ∙ λ i. read_all (bytes i) (count i)

  shown_at :
      (x : ℕ) (lr : LogRecord)
      → Extent.get T m x ≡ some lr
      → device T m log x ≡ record_byte log lr x
  unfolding shown_in
  shown_at x lr e = ap (λ o. or_zero (shown_in log o x)) e

  shown_none : (x : ℕ) → Extent.get T m x ≡ none → device T m log x ≡ 0
  unfolding shown_in
  shown_none x e = ap (λ o. or_zero (shown_in log o x)) e

  -- The bytes of one record
  record_window :
      (lr : LogRecord) (off k : ℕ)
      → ((x : ℕ) → off ≤ x → x < off + k → Extent.get T m x ≡ some lr)
      → lr.zero ≡ false
      → lr.offset ≤ off
      → lr.log_offset + (off - lr.offset) + k ≤ length log
      → take k (drop (lr.log_offset + (off - lr.offset)) log) ≡ window (device T m log) off k
  unfolding record_byte
  record_window lr off k all kind above fits =
      let at = lr.log_offset + (off - lr.offset) in
      slice-window log at k fits
      ∙ window_moved (λ i. get_or log i 0) (device T m log) at off k
          (λ i h.
            let e : lr.log_offset + (off + i - lr.offset) ≡ at + i = omega arith in
            sym (
              shown_at (off + i) lr (all (off + i) (omega arith) (omega arith))
              ∙ rw kind (ap (λ j. get_or log j 0) e)))

  zero_window :
      (lr : LogRecord) (off k : ℕ)
      → ((x : ℕ) → off ≤ x → x < off + k → Extent.get T m x ≡ some lr)
      → lr.zero ≡ true
      → replicate k 0 ≡ window (device T m log) off k
  unfolding record_byte
  zero_window lr off k all kind =
      sym (
        window-replicate (device T m log) off k (λ x a b. shown_at x lr (all x a b) ∙ rw kind refl))

  pub read_bytes_lem :
      (next : Rest) (bound len off k : ℕ) (acc : Bytes) (n : ℕ) (lr : LogRecord)
      → Reads next bound
      → 0 < k
      → k ≤ len
      → len ≤ bound
      → off + len < 2 ^ 63
      → ((x : ℕ) × (off + len ≤ suc x) × (Extent.get T m x ≢ none))
      → ((x : ℕ) → off ≤ x → x < off + k → Extent.get T m x ≡ some lr)
      → read_bytes ra next lr (off - lr.offset) k len off acc n
        ≡ read_all (acc ++ window (device T m log) off len) (n + len)
  unfolding read_bytes
  read_bytes_lem next bound len off k acc n lr rest pos le small fits later all =
      let here = all off (omega arith) (omega arith) in
      let last = backed.inside (off + k - 1) lr (all (off + k - 1) (omega arith) (omega arith)) in
      let first = backed.inside off lr here in
      elim (Bool-cases lr.zero) [
        | inl kind ↦ rw kind (
            joined next bound len off k acc (replicate k 0) n rest pos le small fits later
              (zero_window lr off k all kind))
        | inr kind ↦
            let in_log = backed.in_log off lr here kind in
            let at = lr.log_offset + (off - lr.offset) in
            let got = reads at k (omega (arith, in_log, last, first)) in
            let sum : add64 lr.log_offset (off - lr.offset) ≡ at =
              add64-eq lr.log_offset (off - lr.offset)
                (omega (arith, in_log, first, backed.small)) in
            rw kind (
              rw sum (
                rw got (
                  joined next bound len off k acc (take k (take k (drop at log))) n rest pos le
                    small fits later
                    (take_twice k (drop at log)
                      ∙ record_window lr off k all kind first.0
                          (omega (arith, in_log, last, first))))))
      ]

  pub read_gap_lem :
      (next : Rest) (bound len off : ℕ) (acc : Bytes) (n : ℕ)
      → Reads next bound
      → 0 < len
      → len ≤ bound
      → off + len < 2 ^ 63
      → ((x : ℕ) × (off + len ≤ suc x) × (Extent.get T m x ≢ none))
      → Extent.get T m off ≡ none
      → (found : Option ℕ) → NextMapped (Extent.get T m) off found
      → read_gap next found len off acc n
        ≡ read_all (acc ++ window (device T m log) off len) (n + len)
  unfolding read_gap
  read_gap_lem next bound len off acc n rest pos small fits (x, last, mapped) hole none law =
      absurd (mapped (law x (omega arith)))
  read_gap_lem next bound len off acc n rest pos small fits (x, last, mapped) hole (some f) law =
      let (lr, e) = found_record (Extent.get T m f) law.1 in
      let inside = backed.inside f lr e in
      let past : off < f = elim (Bool-cases (f == off)) [
        | inl same ↦
            let at : f ≡ off = ground (arith, same) in
            absurd (law.1 (ap (Extent.get T m) at ∙ hole))
        | inr other ↦ ground (arith, other, law.0)
      ] in
      let z =
        at_most_bounds len (f - off) (omega arith) (omega (arith, inside)) pos (omega arith) in
      let k = at_most len (f - off) in
      rw (sub64-eq f off law.0 (omega (arith, inside))) (
        joined next bound len off k acc (replicate k 0) n rest z.0 z.1 small fits (x, last, mapped)
          (sym (
            window-replicate (device T m log) off k
              (λ y above below. shown_none y (law.2 y above (omega (arith, z)))))))
