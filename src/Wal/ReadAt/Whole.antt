-- ===== src/Wal/ReadAt/Whole.antt =====
-- Whole reads of log data (internal/wal) give what the index shows of the device.
use logblock.Prelude.{
  ℕ, zero, suc, ◌+◌, ◌-◌, ◌≤◌, ◌<◌, ◌^◌, ◌≡◌, ◌≢◌, refl, sym, ap, ◌∙◌, inl, inr, true, false, ◌||◌,
  none, some, [], ◌++◌, arith, ◌==◌, Bytes, length, take, drop, add64, sub64, slt, add64-eq,
  sub64-eq, slt-eq-ltb, append-nil, Option-cases,
}
use logblock.Readers.Views.{content}
use logblock.RangeMap.{RangeValue}
use logblock.RangeMap.RadixTree.{RadixTree}
use logblock.RangeMap.Extent
use logblock.RangeMap.Extent.Invariant.{Inside}
use logblock.RangeMap.Extent.Lookup.{get_with_range_iff, get_iff}
use logblock.RangeMap.Extent.Next.{next_key-NextMapped}
use logblock.Wal.{LogRecord}
use logblock.Wal.ReadAt.{ReaderAt, Rest, at_most, read_record, read_from_log}
use logblock.Wal.ReadAt.Backed.{window, device, IsBacked}
use logblock.Wal.ReadAt.Loop.{at_most_bounds, read_all, Reads, read_bytes_lem, read_gap_lem}

module _ (T : RadixTree LogRecord) (m : T.Tree) (log : Bytes) (backed : IsBacked T m log)
    (ra : ReaderAt)
    (reads : (o k : ℕ) → o + k ≤ length log → ra o k ≡ (take k (drop o log), true)) where
  -- All keys of a stored extent have its value.
  extent_all :
      (mr : RangeValue LogRecord)
      → T.at m mr.offset ≡ some mr
      → (x : ℕ) → Inside mr x
      → Extent.get T m x ≡ some mr.value
  extent_all mr stored x inside =
      (get_iff T m backed.valid x mr.value).1
        (record { item = mr; stored = stored; inside = inside; holds = refl })

  read_record_lem :
      (next : Rest) (bound len off : ℕ) (acc : Bytes) (n : ℕ) (mr : RangeValue LogRecord)
      → Reads T m log backed ra reads next bound
      → 0 < len
      → len ≤ bound
      → off + len < 2 ^ 63
      → ((x : ℕ) × (off + len ≤ suc x) × (Extent.get T m x ≢ none))
      → T.at m mr.offset ≡ some mr
      → Inside mr off
      → read_record ra next mr len off acc n
        ≡ read_all (acc ++ window (device T m log) off len) (n + len)
  unfolding read_record
  read_record_lem next bound len off acc n mr rest pos small fits later stored inside =
      let lr = mr.value in
      let end = mr.offset + mr.length in
      let first = backed.inside off lr (extent_all mr stored off inside) in
      let last =
        backed.inside (end - 1) lr (extent_all mr stored (end - 1) (omega (arith, inside))) in
      let below : end < 2 ^ 63 = omega (arith, last) in
      let sum : add64 mr.offset mr.length ≡ end =
        add64-eq mr.offset mr.length (omega (arith, below)) in
      let rem : sub64 end off ≡ end - off =
        sub64-eq end off (omega (arith, inside)) (omega (arith, below)) in
      let start : sub64 off lr.offset ≡ off - lr.offset =
        sub64-eq off lr.offset first.0 (omega arith) in
      let left : sub64 lr.length (off - lr.offset) ≡ lr.length - (off - lr.offset) =
        sub64-eq lr.length (off - lr.offset) (omega (arith, first)) (omega (arith, first)) in
      let b =
        at_most_bounds len (end - off) (omega arith) (omega (arith, below)) pos
          (omega (arith, inside)) in
      let k = at_most len (end - off) in
      let t1 : (slt (off - lr.offset) 0 || slt (lr.length - (off - lr.offset)) 0) ≡ false = ground (
        arith,
        slt-eq-ltb (off - lr.offset) 0,
        slt-eq-ltb (lr.length - (off - lr.offset)) 0,
        first,
      ) in
      let t2 : slt (lr.length - (off - lr.offset)) k ≡ false =
        ground (arith, slt-eq-ltb (lr.length - (off - lr.offset)) k, first, last, b) in
      rw sum (
        rw rem (
          rw start (
            rw left (
              rw t1 (
                rw t2 (
                  read_bytes_lem T m log backed ra reads next bound len off k acc n lr rest b.0 b.1
                    small fits later
                    (λ x above under. extent_all mr stored x (omega (arith, inside, b)))))))))

  pub get_none : (off : ℕ) → Extent.get_with_range T m off ≡ none → Extent.get T m off ≡ none
  unfolding Extent.get
  get_none off e = rw (e, Extent.get) refl

  read_from_log-Reads : (fuel : ℕ) → Reads T m log backed ra reads (read_from_log T m ra fuel) fuel
  unfolding read_from_log content
  read_from_log-Reads zero len off acc n enough fits later = absurd (omega arith)
  read_from_log-Reads (suc fuel) zero off acc n enough fits later =
      let c : n ≡ n + 0 = omega arith in λ i. read_all (sym (append-nil acc) i) (c i)
  read_from_log-Reads (suc fuel) (suc j) off acc n enough fits later =
      let len = suc j in
      let more : (suc j == 0) ≡ false = ground arith in
      rw more (elim (Option-cases (Extent.get_with_range T m off)) [
        | inl e ↦
            rw (e, read_from_log)
              (read_gap_lem T m log backed ra reads (read_from_log T m ra fuel) fuel len off acc n
                (read_from_log-Reads fuel) (omega arith) (omega arith) fits later (get_none off e)
                (Extent.next_key T m off) (next_key-NextMapped T m backed.valid off))
        | inr (mr, e) ↦
            let (stored, inside) = (get_with_range_iff T m backed.valid off mr).0 e in
            rw (e, read_from_log)
              (read_record_lem (read_from_log T m ra fuel) fuel len off acc n mr
                (read_from_log-Reads fuel) (omega arith) (omega arith) fits later stored inside)
      ])

  -- A read from an index that is backed by the log, up to an offset at or after which something is written, is complete
  -- and gives the bytes that the index shows, and zeros where it shows none.
  pub read_from_log-window :
      (len off : ℕ)
      → off + len < 2 ^ 63
      → ((x : ℕ) × (off + len ≤ suc x) × (Extent.get T m x ≢ none))
      → read_from_log T m ra (suc len) len off [] 0 ≡ read_all (window (device T m log) off len) len
  read_from_log-window len off fits later =
      let c : 0 + len ≡ len = omega arith in
      read_from_log-Reads (suc len) len off [] 0 (omega arith) fits later
      ∙ ap (read_all (window (device T m log) off len)) c
