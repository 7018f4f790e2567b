-- ===== src/Wal/CloseWriter/Reopen/Opened.antt =====
-- A log that has been closed and is opened again (internal/wal) reads as what was written to it.
use logblock.Prelude.{
  ℕ, suc, ◌<◌, ◌^◌, ◌≡◌, refl, sym, ap, ◌∙◌, subst, inl, inr, true, false, none, some, List, [],
  ◌++◌, arith, ltb, ◌==◌, Bytes, length, length-append, append_assoc, Bool-cases,
}
use logblock.RangeMap.RadixTree.{RadixTree}
use logblock.RangeMap.Extent.Lookup.{empty-IsValid}
use logblock.Wal.{Codec, LogRecord, footer_entry}
use logblock.Wal.Entry.{make_log_entry}
use logblock.Wal.Output.{LogFile}
use logblock.Wal.Writer.{Writer, ok, header_bytes}
use logblock.Wal.Reader.{Loaded, done, read_header}
use logblock.Wal.NewReader.{new_reader, scan, index_loop, empty_index, read_index}
use logblock.Wal.Recovery.Crash.{SmallHeader, read_header-bytes}
use logblock.Wal.ReadAt.Backed.{shown, IsBacked}
use logblock.Wal.ReadAt.Writes.{LogOp, last_byte, only_writes, IsReadable}
use logblock.Wal.CloseWriter.{index_section, footer_bytes, footer_end, close_writer}
use logblock.Wal.CloseWriter.Section.{section_of, index_loop-section}
use logblock.Wal.CloseWriter.Reopen.Ranges.{ranges-AllData}
use logblock.Wal.CloseWriter.Reopen.Footer.{closed, read_index-closed}
use logblock.Wal.CloseWriter.Reopen.Loads.{
  ranges, ranges_shown, ranges-Runs, section-ranges, data_only, loaded_shown, loaded-IsBacked,
}

module _ (c : Codec) (F : LogFile) (T : RadixTree LogRecord) {ops : List LogOp} {w : Writer c F T}
    (r : IsReadable c F T ops w) where
  begun : 0 < w.offset
  unfolding header_bytes
  begun = omega (arith, r.offset, ap length r.head.1, length-append (header_bytes c F T) r.head.0)

  content-closed :
      (n : ℕ) (w' : Writer c F T)
      → close_writer c F T w ≡ (ok n, w')
      → F.content w'.file ≡ F.content w.file ++ footer_bytes c F T w
  unfolding close_writer
  content-closed n w' e =
      let out = F.write_buffered w.file (footer_bytes c F T w) in
      let opened = r.opened in
      let more : (w.offset == 0) ≡ false = ground (arith, begun) in
      elim (Bool-cases out.1) [
        | inl all ↦
            let file : out.0 ≡ w'.file = ground (arith, e, all, more, opened) in
            ap F.content (sym file) ∙ F.content-write_buffered w.file (footer_bytes c F T w) all
        | inr failed ↦ absurd (ground (arith, e, failed, more, opened))
      ]

  module _ (untrimmed : only_writes ops ≡ true) (small_header : SmallHeader c F T)
      (small_section : length (index_section c F T w) < 2 ^ 32) where
    abbrev section : Bytes
    section = index_section c F T w

    abbrev foot : Bytes
    foot = (make_log_entry c footer_entry 0 0 []).header_buf

    abbrev full : Bytes
    full = F.content w.file ++ footer_bytes c F T w

    full-closed : full ≡ closed c F T (F.content w.file ++ foot) section small_section
    unfolding footer_bytes
    full-closed = sym (append_assoc (F.content w.file) foot (section ++ footer_end c F T section))

    loads :
        (l : Loaded c T) × (read_index c T false full (length full) ≡ some l)
        × (l.status ≡ done)
        × ((x : ℕ) → shown T l.index full x ≡ last_byte ops x)
        × (length full < 2 ^ 63 → IsBacked T l.index full)
    unfolding empty_index
    loads =
        let rs = ranges c F T ops w r untrimmed in
        let same = section-ranges c F T ops w r untrimmed in
        let runs = ranges-Runs c F T ops w r untrimmed in
        let all_data =
          ranges-AllData c T w.index (F.content w.file) r.backed (data_only c F T ops w r untrimmed)
            0 none rs runs (λ x above. ranges_shown c F T ops w r untrimmed x) in
        let sized : length (section_of c T rs) < 2 ^ 32 =
          subst (λ b. length b < 2 ^ 32) same small_section in
        let result =
          index_loop-section c T (suc (length (section_of c T rs))) 0 none rs (empty_index c T)
            (omega arith) (omega (arith, sized)) runs all_data (empty-IsValid T) refl in
        let l = result.0 in
        (
          l,
          ap (λ b. read_index c T false b (length b)) full-closed
              ∙ read_index-closed c F T (F.content w.file ++ foot) section small_section l
                  (ap (λ b. index_loop c T (suc (length b)) b (empty_index c T)) same ∙ result.1),
          result.2.ended,
          (λ x.
              loaded_shown c F T ops w r untrimmed (footer_bytes c F T w) l result.2 x ∙ r.shows x),
          loaded-IsBacked c F T ops w r untrimmed (footer_bytes c F T w) l result.2,
        )

    opens_closed :
        (l : Loaded c T)
        → read_index c T false full (length full) ≡ some l
        → new_reader c T false full (length full) ≡ l
    unfolding new_reader scan
    opens_closed l e =
        let split : full ≡ header_bytes c F T ++ (r.head.0 ++ footer_bytes c F T w) =
          ap (λ b. b ++ footer_bytes c F T w) r.head.1
          ∙ append_assoc (header_bytes c F T) r.head.0 (footer_bytes c F T w) in
        let long : ltb 0 (length full) ≡ true =
          ground
            (arith, begun, r.offset, length-append (F.content w.file) (footer_bytes c F T w)) in
        let head =
          ap (read_header c) split
          ∙ read_header-bytes c F T (r.head.0 ++ footer_bytes c F T w) small_header in
        rw (head, new_reader) (rw long (rw (e, scan) refl))

-- What the theorems about a log that is opened again stand on
pub reopened :
    (c : Codec) (F : LogFile) (T : RadixTree LogRecord) {ops : List LogOp} {w : Writer c F T}
    (n : ℕ) (w' : Writer c F T)
    → IsReadable c F T ops w
    → only_writes ops ≡ true
    → close_writer c F T w ≡ (ok n, w')
    → SmallHeader c F T
    → length (index_section c F T w) < 2 ^ 32
    → length (F.content w'.file) < 2 ^ 63
    → (l : Loaded c T) × (new_reader c T false (F.content w'.file) (length (F.content w'.file)) ≡ l)
      × (read_index c T false (F.content w'.file) (length (F.content w'.file)) ≡ some l)
      × (l.status ≡ done)
      × IsBacked T l.index (F.content w'.file)
      × ((x : ℕ) → shown T l.index (F.content w'.file) x ≡ last_byte ops x)
reopened c F T {ops} {w} n w' r untrimmed e small_header small_section small =
    let whole = content-closed c F T r n w' e in
    let (l, indexed, ended, shows, back) = loads c F T r untrimmed small_header small_section in
    (
      l,
      ap (λ b. new_reader c T false b (length b)) whole
          ∙ opens_closed c F T r untrimmed small_header small_section l indexed,
      ap (λ b. read_index c T false b (length b)) whole ∙ indexed,
      ended,
      subst (IsBacked T l.index) (sym whole) (back (subst (λ b. length b < 2 ^ 63) whole small)),
      λ x. ap (λ b. shown T l.index b x) whole ∙ shows x,
    )
