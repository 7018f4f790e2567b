-- ===== src/Wal/CloseWriter/Reopen/Loads.antt =====
-- The index that is loaded from a closed log (internal/wal) shows what the one of the writer did.
use logblock.Prelude.{
  ℕ, ◌+◌, ◌-◌, ◌≤◌, ◌<◌, ◌^◌, ◌≡◌, refl, sym, ap, ◌∙◌, subst, inl, inr, true, false, none, some,
  List, [], ◌++◌, arith, leb, Bytes, length, get_or, length-append, add64, sub64, add64-eq,
  sub64-eq, Option-cases,
}
use logblock.RangeMap.{RangeValue}
use logblock.RangeMap.RadixTree.{RadixTree}
use logblock.RangeMap.Spec.{in_range, denote, Runs}
use logblock.RangeMap.Extent
use logblock.RangeMap.Extent.Lookup.{get-empty}
use logblock.RangeMap.Extent.Iterate.Runs.{iterate_ranges}
use logblock.RangeMap.Extent.Iterate.All.{iterate_lem}
use logblock.Wal.{Codec, LogRecord}
use logblock.Wal.Output.{LogFile}
use logblock.Wal.Writer.{Writer}
use logblock.Wal.Reader.{Loaded}
use logblock.Wal.NewReader.{empty_index}
use logblock.Wal.ReadAt.Backed.{record_byte, shown_in, shown, IsBacked}
use logblock.Wal.ReadAt.Extend.{get_or-append_lt}
use logblock.Wal.ReadAt.Writes.{LogOp, only_writes, IsReadable}
use logblock.Wal.CloseWriter.{LogRecord-comparable, index_section, write_entry_of}
use logblock.Wal.CloseWriter.Section.{
  range_record, find_range, or_record, denote-find_range, find_range-none, section_of,
  feed-section_of, Indexes,
}
use logblock.Wal.CloseWriter.Reopen.Ranges.{Found, found_lem}

module _ (c : Codec) (F : LogFile) (T : RadixTree LogRecord) (ops : List LogOp) (w : Writer c F T)
    (r : IsReadable c F T ops w) (untrimmed : only_writes ops ≡ true) where
  abbrev pub log : Bytes
  log = F.content w.file

  pub ranges : List (RangeValue LogRecord)
  ranges = iterate_ranges T w.index r.backed.valid 0

  pub ranges_shown : (x : ℕ) → denote ranges x ≡ Extent.get T w.index x
  unfolding ranges
  ranges_shown x =
      let first : leb 0 x ≡ true = ground arith in
      (iterate_lem T w.index r.backed.valid (write_entry_of c) 0 []).0.0 x ∙ rw first refl

  pub ranges-Runs : Runs 0 none ranges
  unfolding ranges
  ranges-Runs = (iterate_lem T w.index r.backed.valid (write_entry_of c) 0 []).0.1

  pub section-ranges : index_section c F T w ≡ section_of c T ranges
  unfolding ranges index_section
  section-ranges =
      (iterate_lem T w.index r.backed.valid (write_entry_of c) 0 []).1
      ∙ feed-section_of c T [] (iterate_ranges T w.index r.backed.valid 0)

  pub data_only : (x : ℕ) (lr : LogRecord) → Extent.get T w.index x ≡ some lr → lr.zero ≡ false
  data_only x lr e = r.untrimmed untrimmed x lr e

  found :
      (x : ℕ) (s : RangeValue LogRecord)
      → find_range ranges x ≡ some s
      → Found c T w.index log r.backed data_only s
  found x s h = found_lem c T w.index log r.backed data_only ranges x s ranges-Runs ranges_shown h

  shown_found :
      (tail : Bytes) (x : ℕ) (s : RangeValue LogRecord)
      → find_range ranges x ≡ some s
      → record_byte (log ++ tail) (range_record s) x ≡ record_byte log s.value x
  unfolding record_byte
  shown_found tail x s h =
      let f = found x s h in
      let d = denote-find_range ranges x s h in
      let inside : in_range s.offset s.length x ≡ true = d.1 in
      let sub : sub64 s.offset s.value.offset ≡ s.offset - s.value.offset =
        sub64-eq s.offset s.value.offset f.after (omega (arith, f.within, f.fits)) in
      let small = r.backed.small in
      let sum : add64 s.value.log_offset (sub64 s.offset s.value.offset)
          ≡ s.value.log_offset + (s.offset - s.value.offset) =
        ap (add64 s.value.log_offset) sub
        ∙ add64-eq s.value.log_offset (s.offset - s.value.offset)
            (omega (arith, f.in_log, f.within, f.pos, small)) in
      let above : s.offset ≤ x = ground (arith, inside) in
      let under : x < s.offset + s.length = ground (arith, inside) in
      let at : add64 s.value.log_offset (sub64 s.offset s.value.offset) + (x - s.offset)
          ≡ s.value.log_offset + (x - s.value.offset) =
        omega (arith, sum, f.after) in
      let kind = data_only x s.value (sym (ranges_shown x) ∙ d.0) in
      rw kind (
        ap (λ i. get_or (log ++ tail) i 0) at
        ∙ get_or-append_lt log tail (s.value.log_offset + (x - s.value.offset)) 0
            (omega (arith, f.in_log, f.within, f.after)))

  module _ (tail : Bytes) (l : Loaded c T) (loads : Indexes c T (empty_index c T) ranges l) where
    gets : (x : ℕ) → Extent.get T l.index x ≡ or_record (find_range ranges x) none
    unfolding empty_index
    gets x = loads.gets x ∙ ap (or_record (find_range ranges x)) (get-empty T x)

    -- The index that is loaded shows what the writer's did.
    pub loaded_shown : (x : ℕ) → shown T l.index (log ++ tail) x ≡ shown T w.index log x
    unfolding shown_in
    loaded_shown x = elim (Option-cases (find_range ranges x)) [
      | inl h ↦
          let now : Extent.get T l.index x ≡ none = gets x ∙ ap (λ f. or_record f none) h in
          let then_none : Extent.get T w.index x ≡ none =
            sym (ranges_shown x) ∙ find_range-none ranges x h in
          ap (λ o. shown_in (log ++ tail) o x) now ∙ ap (λ o. shown_in log o x) (sym then_none)
      | inr (s, h) ↦
          let now : Extent.get T l.index x ≡ some (range_record s) =
            gets x ∙ ap (λ f. or_record f none) h in
          let was : Extent.get T w.index x ≡ some s.value =
            sym (ranges_shown x) ∙ (denote-find_range ranges x s h).0 in
          ap (λ o. shown_in (log ++ tail) o x) now
          ∙ ap (λ b. some b) (shown_found tail x s h)
          ∙ ap (λ o. shown_in log o x) (sym was)
    ]

    which :
        (x : ℕ) (lr : LogRecord)
        → Extent.get T l.index x ≡ some lr
        → (s : RangeValue LogRecord) × (find_range ranges x ≡ some s) × (range_record s ≡ lr)
    which x lr e = elim (Option-cases (find_range ranges x)) [
      | inl h ↦ absurd (ground (arith, gets x ∙ ap (λ f. or_record f none) h, e))
      | inr (s, h) ↦
          let both : some (range_record s) ≡ some lr =
            sym (gets x ∙ ap (λ f. or_record f none) h) ∙ e in
          (s, h, cc)
    ]

    pub loaded-IsBacked : length (log ++ tail) < 2 ^ 63 → IsBacked T l.index (log ++ tail)
    loaded-IsBacked small = record {
      valid = loads.valid;
      inside = λ x lr e.
          let (s, h, same) = which x lr e in
          let f = found x s h in
          let i = (denote-find_range ranges x s h).1 in
          subst (λ t. (t.offset ≤ x) × (x < t.offset + t.length) × (t.offset + t.length < 2 ^ 63))
            same (ground (arith, i), ground (arith, i), omega (arith, f.within, f.fits));
      in_log = λ x lr e k.
          let (s, h, same) = which x lr e in
          let f = found x s h in
          let sub = sub64-eq s.offset s.value.offset f.after (omega (arith, f.within, f.fits)) in
          let sum =
            add64-eq s.value.log_offset (s.offset - s.value.offset)
              (omega (arith, f.in_log, f.within, f.pos, r.backed.small)) in
          let at : add64 s.value.log_offset (sub64 s.offset s.value.offset)
              ≡ s.value.log_offset + (s.offset - s.value.offset) =
            ap (add64 s.value.log_offset) sub ∙ sum in
          subst (λ t. t.log_offset + t.length ≤ length (log ++ tail)) same
            (omega (arith, at, f.in_log, f.within, f.after, length-append log tail));
      small = small;
    }
