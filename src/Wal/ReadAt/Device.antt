-- ===== src/Wal/ReadAt/Device.antt =====
-- Reads of a log of internal/wal/writer.go give back what has been written to it.
use logblock.Prelude.{
  ℕ, suc, ◌+◌, ◌≤◌, ◌<◌, ◌^◌, ◌≡◌, ◌≢◌, refl, sym, ap, ◌∙◌, subst, inl, inr, true, false, none,
  List, [], ◌∷◌, ◌++◌, arith, ltb, ◌==◌, Bytes, length, take, drop, append-nil, Bool-cases,
  Option-cases,
}
use logblock.Readers.Views.{content_agree}
use logblock.RangeMap.RadixTree.{RadixTree}
use logblock.RangeMap.Spec.{in_range, NextMapped}
use logblock.RangeMap.Extent
use logblock.RangeMap.Extent.Lookup.{empty-IsValid, get-empty}
use logblock.RangeMap.Extent.Next.{next_key-NextMapped}
use logblock.Wal.{Codec, LogRecord, max_write_size}
use logblock.Wal.Output.{LogFile}
use logblock.Wal.Writer.{Writer, Outcome, ok, header_bytes, write_at, trim, new_writer}
use logblock.Wal.Writer.Appends.{content_after_write}
use logblock.Wal.Recovery.{written}
use logblock.Wal.Recovery.Start.{started}
use logblock.Wal.ReadAt.{end_of_data, ReaderAt, read_gap, read_from_log, read_at_from}
use logblock.Wal.ReadAt.Backed.{shown_in, shown, device, or_zero, window}
use logblock.Wal.ReadAt.Loop.{read_all}
use logblock.Wal.ReadAt.Whole.{read_from_log-window}
use logblock.Wal.ReadAt.Writes.{
  LogOp, writes, trims, last_byte, only_writes, Logged, initial, wrote, trimmed, IsReadable,
  trim_written, trim_refused, write_at_refused,
}
use logblock.Wal.ReadAt.History.{written-IsReadable, trimmed-IsReadable}

module _ (c : Codec) (F : LogFile) (T : RadixTree LogRecord) where
  started-IsReadable :
      (f : F.File) (blank : F.content f ≡ []) (done : (F.write f (header_bytes c F T)).2 ≡ true)
      → length (header_bytes c F T) < 2 ^ 63
      → IsReadable c F T [] (started c F T f blank done)
  unfolding new_writer last_byte shown_in
  started-IsReadable f blank done small =
      let head = header_bytes c F T in
      let file : F.content (F.write f head).0 ≡ head =
        content_after_write c F T f head done ∙ ap (λ b. b ++ head) blank in
      record {
        header_ok = (refl, refl);
        opened = refl;
        offset = F.written_all f head done ∙ ap length (sym file);
        backed = record {
          valid = empty-IsValid T;
          inside = λ x lr e. cc (get-empty T x);
          in_log = λ x lr e k. cc (get-empty T x);
          small = omega (arith, ap length file);
        };
        head = ([], file ∙ sym (append-nil head));
        untrimmed = λ k x lr e. cc (get-empty T x);
        shows = λ x. ap (λ o. shown_in (F.content (F.write f head).0) o x) (get-empty T x);
      }

  same_writer :
      (n m : ℕ) (w w' : Writer c F T)
      → ◌≡◌ {A = Outcome × Writer c F T} (ok n, w) (ok m, w')
      → w ≡ w'
  same_writer n m w w' e = ap (λ p. p.1) e

  module _ {ops : List LogOp} {w : Writer c F T} (r : IsReadable c F T ops w) where
    nothing_written :
        (p : Bytes) (off : ℕ) → (length p == 0) ≡ true → IsReadable c F T (writes p off ∷ ops) w
    unfolding last_byte only_writes
    nothing_written p off h = record {
      header_ok = r.header_ok;
      opened = r.opened;
      offset = r.offset;
      backed = r.backed;
      head = r.head;
      untrimmed = r.untrimmed;
      shows = λ x.
          r.shows x
          ∙ (let out : in_range off (length p) x ≡ false = ground (arith, h) in rw out refl);
    }

    wrote-IsReadable :
        (p : Bytes) (off n : ℕ) (w' : Writer c F T)
        → off + length p < 2 ^ 63
        → w.offset + 16 + length p < 2 ^ 63
        → write_at c F T w p off ≡ (ok n, w')
        → IsReadable c F T (writes p off ∷ ops) w'
    unfolding write_at
    wrote-IsReadable p off n w' fits room e = elim (Bool-cases (length p == 0)) [
      | inl h ↦
          let same : w ≡ w' = same_writer 0 n w w' (ground (arith, h, e)) in
          subst (IsReadable c F T (writes p off ∷ ops)) same (nothing_written p off h)
      | inr h ↦ elim (Bool-cases (ltb max_write_size (length p))) [
        | inl big ↦ absurd (ground (arith, h, big, e))
        | inr small ↦
            let pos : 0 < length p = ground (arith, h) in
            let fine : length p ≤ max_write_size = ground (arith, small) in
            elim (Bool-cases (written c F T w p off).1) [
              | inl done ↦
                  let (w1, eq, readable) =
                    written-IsReadable c F T ops w r p off pos fits room done fine in
                  subst (IsReadable c F T (writes p off ∷ ops))
                    (same_writer (length p) n w1 w' (sym eq ∙ e)) readable
              | inr failed ↦ absurd (
                  write_at_refused c F T w off 0 p n w' r.header_ok.0 r.header_ok.1 r.opened pos
                    fine failed e)
            ]
      ]
    ]

    nothing_trimmed : (off len : ℕ) → (len == 0) ≡ true → IsReadable c F T (trims off len ∷ ops) w
    unfolding last_byte only_writes
    nothing_trimmed off len h = record {
      header_ok = r.header_ok;
      opened = r.opened;
      offset = r.offset;
      backed = r.backed;
      head = r.head;
      untrimmed = λ k x lr e. cc;
      shows = λ x.
          r.shows x ∙ (let out : in_range off len x ≡ false = ground (arith, h) in rw out refl);
    }

    trim-IsReadable :
        (off len n : ℕ) (w' : Writer c F T)
        → off + len < 2 ^ 63
        → w.offset + 24 < 2 ^ 63
        → trim c F T w off len ≡ (ok n, w')
        → IsReadable c F T (trims off len ∷ ops) w'
    unfolding trim
    trim-IsReadable off len n w' fits room e = elim (Bool-cases (len == 0)) [
      | inl h ↦
          let same : w ≡ w' = same_writer 0 n w w' (ground (arith, h, e)) in
          subst (IsReadable c F T (trims off len ∷ ops)) same (nothing_trimmed off len h)
      | inr h ↦
          let pos : 0 < len = ground (arith, h) in
          elim (Bool-cases (trim_written c F T w off len).1) [
            | inl done ↦
                let (w1, eq, readable) =
                  trimmed-IsReadable c F T ops w r off len pos fits room done in
                subst (IsReadable c F T (trims off len ∷ ops)) (same_writer 0 n w1 w' (sym eq ∙ e))
                  readable
            | inr failed ↦ absurd (
                trim_refused c F T w off len n w' r.header_ok.0 r.header_ok.1 r.opened pos failed e)
          ]
    ]

  pub Logged-IsReadable :
      {ops : List LogOp} {w : Writer c F T} → Logged c F T ops w → IsReadable c F T ops w
  Logged-IsReadable (initial f blank done small) = started-IsReadable f blank done small
  Logged-IsReadable (wrote p off n w' l fits room e) =
      wrote-IsReadable (Logged-IsReadable l) p off n w' fits room e
  Logged-IsReadable (trimmed off len n w' l fits room e) =
      trim-IsReadable (Logged-IsReadable l) off len n w' fits room e

  module _ {ops : List LogOp} {w : Writer c F T} (logged : Logged c F T ops w) (ra : ReaderAt)
      (reads : (o k : ℕ)
        → o + k ≤ length (F.content w.file)
        → ra o k ≡ (take k (drop o (F.content w.file)), true)) where
    index_shows : (x : ℕ) → shown T w.index (F.content w.file) x ≡ last_byte ops x
    index_shows = (Logged-IsReadable logged).shows

    -- What has been written is in the index.
    mapped : (x : ℕ) → last_byte ops x ≢ none → Extent.get T w.index x ≢ none
    unfolding shown_in
    mapped x h e = h (sym (index_shows x) ∙ ap (λ o. shown_in (F.content w.file) o x) e)

    empty_at : (x : ℕ) → last_byte ops x ≡ none → Extent.get T w.index x ≡ none
    unfolding shown_in
    empty_at x h = elim (Option-cases (Extent.get T w.index x)) [
      | inl e ↦ e
      | inr (lr, e) ↦
          let some_byte = sym (ap (λ o. shown_in (F.content w.file) o x) e) ∙ index_shows x ∙ h in
          cc
    ]

    no_range :
        (off : ℕ) → Extent.get T w.index off ≡ none → Extent.get_with_range T w.index off ≡ none
    unfolding Extent.get
    no_range off h = elim (Option-cases (Extent.get_with_range T w.index off)) [
      | inl e ↦ e
      | inr (mr, e) ↦ absurd (ground (arith, e, h))
    ]

    read_past :
        (len off : ℕ)
        → 0 < len
        → ((x : ℕ) → off ≤ x → last_byte ops x ≡ none)
        → read_at_from c F T w ra len off ≡ record { buf = []; count = 0; status = end_of_data }
    unfolding read_at_from read_from_log read_gap
    read_past len off pos nothing =
        let more : (len == 0) ≡ false = ground arith in
        let law = next_key-NextMapped T w.index (Logged-IsReadable logged).backed.valid off in
        rw more (
          rw (no_range off (empty_at off (nothing off (omega arith))), read_from_log)
            (elim (Option-cases (Extent.next_key T w.index off)) [
              | inl e ↦ rw (e, read_gap) refl
              | inr (n, e) ↦
                  let found = subst (NextMapped (Extent.get T w.index) off) e law in
                  absurd (found.1 (empty_at n (nothing n found.0)))
            ]))

    -- After any history of writes and trims that returned no error, on a log whose file reads back its content, a read
    -- up to an offset at or after which something has been written is complete and gives at each offset the byte that
    -- was written there last, or zero after a trim or where nothing was written; and a read from an offset at and after
    -- which nothing has been written gives io.EOF and no bytes.
    pub read_at_from-last_byte :
        (len off : ℕ)
        → off + len < 2 ^ 63
        → (((x : ℕ) × (off + len ≤ suc x) × (last_byte ops x ≢ none))
            → read_at_from c F T w ra len off
              ≡ read_all (window (λ x. or_zero (last_byte ops x)) off len) len)
          × (0 < len
              → ((x : ℕ) → off ≤ x → last_byte ops x ≡ none)
              → read_at_from c F T w ra len off
                ≡ record { buf = []; count = 0; status = end_of_data })
    unfolding read_at_from
    read_at_from-last_byte len off fits = (
      λ later.
          read_from_log-window T w.index (F.content w.file) (Logged-IsReadable logged).backed ra
            reads len off fits (later.0, later.1, mapped later.0 later.2)
          ∙ ap (λ b. read_all b len)
              (content_agree (λ x. device T w.index (F.content w.file) x ∷ [])
                (λ x. or_zero (last_byte ops x) ∷ []) off len
                (λ x above below. ap (λ o. or_zero o ∷ []) (index_shows x))),
      read_past len off,
    )
