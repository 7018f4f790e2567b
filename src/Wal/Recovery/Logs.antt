-- ===== src/Wal/Recovery/Logs.antt =====
-- Crash recovery after histories of writes: `NewReader` of internal/wal/reader.go, and `NewWriteLogFromReader` of
-- internal/block/write_log.go, on a file that internal/wal/writer.go has not closed.
use logblock.Prelude.{
  ℕ, ◌+◌, ◌≤◌, ◌<◌, ◌^◌, ◌≡◌, sym, ◌∙◌, ap, subst, Bool, true, false, inl, inr, List, ◌++◌, ◌&&◌,
  arith, ltb, leb, ◌==◌, not, Bytes, length, take, Bool-cases,
}
use logblock.RangeMap.RadixTree.{RadixTree}
use logblock.Wal.{Codec, LogRecord, max_write_size}
use logblock.Wal.Output.{LogFile}
use logblock.Wal.Writer.{Writer, Outcome, ok, write_at}
use logblock.Wal.Reader.{Loaded}
use logblock.Wal.Reader.Packets.{data_bytes}
use logblock.Wal.NewReader.{new_reader, opens}
use logblock.Wal.Recovery.{IsRecoverable, written, write_at-IsRecoverable}
use logblock.Wal.Recovery.Start.{started-IsRecoverable}
use logblock.Wal.Recovery.Crash.{torn_status, SmallHeader, ends_in_footer, recovers_torn}
use logblock.Wal.ReadAt.Writes.{
  LogOp, only_writes, Logged, initial, wrote, trimmed, write_at_refused,
}

module _ (c : Codec) (F : LogFile) (T : RadixTree LogRecord) where
  same_state :
      (n m : ℕ) (w w' : Writer c F T)
      → ◌≡◌ {A = Outcome × Writer c F T} (ok n, w) (ok m, w')
      → w ≡ w'
  same_state n m w w' e = ap (λ p. p.1) e

  wrote-IsRecoverable :
      {w : Writer c F T} (r : IsRecoverable c F T w) (p : Bytes) (off n : ℕ) (w' : Writer c F T)
      → off + length p < 2 ^ 63
      → w.offset + 16 + length p < 2 ^ 63
      → write_at c F T w p off ≡ (ok n, w')
      → IsRecoverable c F T w'
  unfolding write_at
  wrote-IsRecoverable {w} r p off n w' fits room e = elim (Bool-cases (length p == 0)) [
    | inl h ↦ subst (IsRecoverable c F T) (same_state 0 n w w' (ground (arith, h, e))) r
    | inr h ↦ elim (Bool-cases (ltb max_write_size (length p))) [
      | inl big ↦ absurd (ground (arith, h, big, e))
      | inr small ↦
          let pos : 0 < length p = ground (arith, h) in
          let fine : length p ≤ max_write_size = ground (arith, small) in
          elim (Bool-cases (written c F T w p off).1) [
            | inl accepted ↦
                let (w1, eq, good) =
                  write_at-IsRecoverable c F T w p off r pos fine (omega (arith, fits))
                    (omega (arith, room)) accepted in
                subst (IsRecoverable c F T) (same_state (length p) n w1 w' (sym eq ∙ e)) good
            | inr failed ↦ absurd (
                write_at_refused c F T w off 0 p n w' r.header_ok.0 r.header_ok.1 r.opened pos fine
                  failed e)
          ]
    ]
  ]

  -- A log that has been written to without an error, and not trimmed, is recoverable.
  Logged-IsRecoverable :
      {ops : List LogOp} {w : Writer c F T}
      → Logged c F T ops w
      → only_writes ops ≡ true
      → IsRecoverable c F T w
  unfolding only_writes
  Logged-IsRecoverable (initial f blank all small) untrimmed =
      started-IsRecoverable c F T f blank all
  Logged-IsRecoverable (wrote p off n w' l fits room e) untrimmed =
      wrote-IsRecoverable (Logged-IsRecoverable l untrimmed) p off n w' fits room e
  Logged-IsRecoverable (trimmed off len n w' l fits room e) untrimmed =
      absurd (ground (arith, untrimmed))

  -- The content of the file after a crash in the middle of a write, with `n` bytes of its entry
  abbrev pub crashed_log :
      (w : Writer c F T) (p : Bytes) (off : ℕ)
      → 0 < length p
      → length p ≤ max_write_size
      → off < 2 ^ 64
      → ℕ
      → Bytes
  crashed_log w p off pos small_write fits n =
      F.content w.file ++ take n (data_bytes c off p fits pos small_write)

  module _ {ops : List LogOp} {w : Writer c F T} (logged : Logged c F T ops w)
      (untrimmed : only_writes ops ≡ true) (small : SmallHeader c F T) (eof : Bool) where
    module _ (p : Bytes) (off : ℕ) (pos : 0 < length p) (small_write : length p ≤ max_write_size)
        (fits : off < 2 ^ 64) (n : ℕ) (part : n < 16 + length p) where
      pub recovery_torn :
          ends_in_footer (crashed_log w p off pos small_write fits n) ≡ false
          → new_reader c T eof
              (crashed_log w p off pos small_write fits n)
              (length (crashed_log w p off pos small_write fits n))
            ≡ record { index = w.index; end = w.end; status = torn_status n }
      recovery_torn bare =
          recovers_torn c F T w (Logged-IsRecoverable logged untrimmed) p off pos small_write fits
            eof n part small bare

      -- NewWriteLogFromReader, which passes on the size of the file, opens such a log after such a crash, if what is in the
      -- file does not end in the magic bytes of a footer, except for n from 8 to 15, provided the protobuf
      -- header is at most 64 KiB.
      pub opens-torn :
          ends_in_footer (crashed_log w p off pos small_write fits n) ≡ false
          → opens
              (new_reader c T eof
                (crashed_log w p off pos small_write fits n)
                (length (crashed_log w p off pos small_write fits n))).status
            ≡ not (leb 8 n && ltb n 16)
      unfolding opens
      opens-torn bare = ap (λ (l : Loaded c T). opens l.status) (recovery_torn bare) ∙ ground arith
