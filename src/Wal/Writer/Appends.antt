-- ===== src/Wal/Writer/Appends.antt =====
-- A log entry that internal/wal/writer.go writes without an error is at the end of the file.
use logblock.Prelude.{
  ◌≡◌, refl, ◌∙◌, ap, true, [], ◌∷◌, ◌++◌, arith, Bytes, length, take, append_assoc, append-nil,
  take_length,
}
use logblock.RangeMap.RadixTree.{RadixTree}
use logblock.Wal.{Codec, LogRecord}
use logblock.Wal.Entry.{LogEntry}
use logblock.Wal.Output.{LogFile}
use logblock.Wal.Writer.{write_to, write_log_entry}

nil_of_length : (b : Bytes) → length b ≡ 0 → b ≡ []
nil_of_length [] h = refl
nil_of_length (x ∷ b) h = absurd (omega arith)

module _ (c : Codec) (F : LogFile) (T : RadixTree LogRecord) where
  pub content_after_write :
      (f : F.File) (b : Bytes)
      → (F.write f b).2 ≡ true
      → F.content (F.write f b).0 ≡ F.content f ++ b
  content_after_write f b h =
      F.content-write f b
      ∙ ap (λ n. F.content f ++ take n b) (F.written_all f b h)
      ∙ ap (λ t. F.content f ++ t) (take_length b)

  content-write_to :
      (f : F.File) (e : LogEntry)
      → (write_to c F T f e).1 ≡ true
      → F.content (write_to c F T f e).0 ≡ F.content f ++ (e.header_buf ++ e.body)
  unfolding write_to
  content-write_to f e h =
      let f1 = (F.write f e.header_buf).0 in
      ground (
        arith,
        content_after_write f e.header_buf,
        content_after_write f1 e.body,
        append_assoc (F.content f) e.header_buf e.body,
        append-nil e.header_buf,
        nil_of_length e.body,
      )

  pub content-write_log_entry :
      (f : F.File) (e : LogEntry)
      → e.read_off ≡ 0
      → (write_log_entry c F T f e).1 ≡ true
      → F.content (write_log_entry c F T f e).0 ≡ F.content f ++ (e.header_buf ++ e.body)
  unfolding write_log_entry
  content-write_log_entry f e start h =
      ground (arith, F.content-read_from f e, content-write_to f e)
