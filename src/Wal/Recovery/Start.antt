-- ===== src/Wal/Recovery/Start.antt =====
-- The first call on a log writer of internal/wal/writer.go writes the header.
use logblock.Prelude.{
  ℕ, ◌-◌, ◌≤◌, ◌<◌, ◌≡◌, refl, sym, ◌∙◌, ap, true, false, none, [], ◌++◌, arith, ltb, ◌==◌, Bytes,
  length, append-nil,
}
use logblock.RangeMap.RadixTree.{RadixTree}
use logblock.RangeMap.Extent.Lookup.{empty-IsValid}
use logblock.Wal.{Codec, LogRecord, max_write_size}
use logblock.Wal.Output.{LogFile}
use logblock.Wal.Writer.{Writer, header_bytes, write_header, write_at, new_writer}
use logblock.Wal.Writer.Appends.{content_after_write}
use logblock.Wal.Recovery.{IsRecoverable}

module _ (c : Codec) (F : LogFile) (T : RadixTree LogRecord) (f : F.File) (blank : F.content f ≡ [])
    (done : (F.write f (header_bytes c F T)).2 ≡ true) where
  abbrev pub started : Writer c F T
  started = record (new_writer c F T f) {
    file = (F.write f (header_bytes c F T)).0;
    offset = (F.write f (header_bytes c F T)).1;
    header_done = true;
    header_err = none;
  }

  write_header-new : write_header c F T (new_writer c F T f) ≡ (none, started)
  unfolding write_header new_writer
  write_header-new = rw done

  -- The first write goes on from the writer that has written the header.
  pub write_at-new :
      (p : Bytes) (off : ℕ)
      → 0 < length p
      → length p ≤ max_write_size
      → write_at c F T (new_writer c F T f) p off ≡ write_at c F T started p off
  unfolding write_at
  write_at-new p off pos small =
      let t1 : (length p == 0) ≡ false = ground arith in
      let t2 : ltb max_write_size (length p) ≡ false = ground arith in
      let again : write_header c F T started ≡ (none, started) = unfold write_header in refl in
      rw (t1, t2, write_header-new, again)

  -- A log with its header and no entry is recoverable.
  pub started-IsRecoverable : IsRecoverable c F T started
  unfolding new_writer
  started-IsRecoverable = record {
    header_ok = (refl, refl);
    opened = refl;
    body = [];
    count = 0;
    content =
        content_after_write c F T f (header_bytes c F T) done
        ∙ ap (λ b. b ++ header_bytes c F T) blank
        ∙ sym (append-nil (header_bytes c F T));
    offset = omega (arith, F.written_all f (header_bytes c F T) done);
    counted = omega arith;
    valid = empty-IsValid T;
    replays = λ fuel tail le.
        let e : fuel - 0 ≡ fuel = omega arith in
        rw (e, F.written_all f (header_bytes c F T) done) refl;
  }
