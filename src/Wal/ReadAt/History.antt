-- ===== src/Wal/ReadAt/History.antt =====
-- A log of internal/wal/writer.go shows what has been written to it, and reads give it back.
use logblock.Prelude.{
  ℕ, ◌+◌, ◌-◌, ◌≤◌, ◌<◌, ◌^◌, ◌≡◌, refl, sym, ap, ◌∙◌, subst, inl, inr, true, false, some, List, [],
  ◌∷◌, ◌++◌, arith, Bytes, length, get_or, length-append, append_assoc, add64, add64-eq, Bool-cases,
}
use logblock.RangeMap.RadixTree.{RadixTree}
use logblock.RangeMap.Spec.{in_range}
use logblock.RangeMap.Extent.Update.{get-add}
use logblock.Wal.{Codec, LogRecord, max_write_size}
use logblock.Wal.Output.{LogFile}
use logblock.Wal.Entry.{make_log_entry}
use logblock.Wal.Writer.{Writer, ok, header_bytes, write_at, trim}
use logblock.Wal.Writer.Appends.{content-write_log_entry}
use logblock.Wal.Recovery.{record_of, entry, written, after, lengths, write_at-eq}
use logblock.Wal.ReadAt.Backed.{record_byte, shown, IsBacked}
use logblock.Wal.ReadAt.Extend.{get_or-append_add, shown-added, added-IsBacked}
use logblock.Wal.ReadAt.Writes.{
  LogOp, writes, trims, last_byte, only_writes, IsReadable, trim_log_entry, trim_written,
  trim_record, after_trim, trim_lengths, trim-eq,
}

module _ (c : Codec) (F : LogFile) (T : RadixTree LogRecord) where
  module _ (ops : List LogOp) (w : Writer c F T) (r : IsReadable c F T ops w) where
    module _ (p : Bytes) (off : ℕ) (pos : 0 < length p) (fits : off + length p < 2 ^ 63)
        (room : w.offset + 16 + length p < 2 ^ 63) (done : (written c F T w p off).1 ≡ true) where
      abbrev head : Bytes
      head = (entry c F T w p off).header_buf

      grown : F.content (written c F T w p off).0 ≡ F.content w.file ++ (head ++ p)
      unfolding make_log_entry
      grown = content-write_log_entry c F T w.file (entry c F T w p off) refl done

      grown_length : length (F.content w.file ++ (head ++ p)) ≡ w.offset + 16 + length p
      grown_length = omega (
        arith,
        length-append (F.content w.file) (head ++ p),
        length-append head p,
        r.offset,
        lengths c F T w p off,
      )

      -- The bytes of the new record are those that are written.
      new_byte :
          (x : ℕ)
          → off ≤ x
          → record_byte (F.content w.file ++ (head ++ p)) (record_of c F T w p off) x
            ≡ get_or p (x - off) 0
      unfolding record_byte
      new_byte x above =
          let sum : add64 w.offset 16 ≡ w.offset + 16 = add64-eq w.offset 16 (omega arith) in
          let at : add64 w.offset 16 + (x - off)
              ≡ length (F.content w.file) + (length head + (x - off)) =
            omega (arith, sum, r.offset, lengths c F T w p off) in
          ap (λ i. get_or (F.content w.file ++ (head ++ p)) i 0) at
          ∙ get_or-append_add (F.content w.file) (head ++ p) (length head + (x - off)) 0
          ∙ get_or-append_add head p (x - off) 0

      abbrev rec : LogRecord
      rec = record_of c F T w p off

      record_fits :
          rec.zero ≡ false → rec.log_offset + rec.length ≤ length (F.content w.file ++ (head ++ p))
      record_fits kind = omega (arith, grown_length, add64-eq w.offset 16)

      pub written-IsReadable :
          length p ≤ max_write_size
          → (w' : Writer c F T) × (write_at c F T w p off ≡ (ok (length p), w'))
            × IsReadable c F T (writes p off ∷ ops) w'
      unfolding last_byte only_writes
      written-IsReadable small =
          let (index, added, valid, gets) =
            get-add T w.index r.backed.valid off (length p) rec (omega arith) in
          let long = grown_length in
          let log = F.content w.file ++ (head ++ p) in
          let tail = head ++ p in
          let back : IsBacked T index log =
            added-IsBacked T w.index index (F.content w.file) tail r.backed rec valid gets fits
              record_fits (omega (arith, long)) in
          let view =
            shown-added T w.index index (F.content w.file) tail r.backed rec valid gets fits
              record_fits (omega (arith, long)) in
          (
            after c F T w p off index,
            write_at-eq c F T w p off index r.header_ok.0 r.header_ok.1 r.opened pos small added
                done,
            record {
              header_ok = r.header_ok;
              opened = r.opened;
              offset =
                  add64-eq w.offset (16 + length p) (omega arith)
                  ∙ omega (arith, long, ap length grown);
              backed = subst (IsBacked T index) (sym grown) back;
              head = (
                r.head.0 ++ tail,
                grown
                    ∙ ap (λ b. b ++ tail) r.head.1
                    ∙ append_assoc (header_bytes c F T) r.head.0 tail,
              );
              untrimmed = λ k x lr e. elim (Bool-cases (in_range off (length p) x)) [
                | inl h ↦ let same : some rec ≡ some lr = sym (gets x ∙ rw h refl) ∙ e in cc
                | inr h ↦ r.untrimmed k x lr (sym (gets x ∙ rw h refl) ∙ e)
              ];
              shows = λ x.
                  ap (λ b. shown T index b x) grown
                  ∙ view x
                  ∙ elim (Bool-cases (in_range off (length p) x)) [
                    | inl h ↦ rw h (ap (λ b. some b) (new_byte x (ground (arith, h))))
                    | inr h ↦ rw h (r.shows x)
                  ];
            },
          )

    module _ (off len : ℕ) (pos : 0 < len) (fits : off + len < 2 ^ 63)
        (room : w.offset + 24 < 2 ^ 63) (done : (trim_written c F T w off len).1 ≡ true) where
      abbrev trim_head : Bytes
      trim_head = (trim_log_entry c F T w off len).header_buf

      trim_grown :
          F.content (trim_written c F T w off len).0 ≡ F.content w.file ++ (trim_head ++ [])
      unfolding make_log_entry
      trim_grown = content-write_log_entry c F T w.file (trim_log_entry c F T w off len) refl done

      trim_grown_length : length (F.content w.file ++ (trim_head ++ [])) ≡ w.offset + 24
      trim_grown_length =
          let none_more : length trim_head + 0 ≡ length trim_head = omega arith in
          length-append (F.content w.file) (trim_head ++ [])
          ∙ omega (arith, length-append trim_head [], r.offset, trim_lengths c F T w off len)

      pub trimmed-IsReadable :
          (w' : Writer c F T) × (trim c F T w off len ≡ (ok 0, w'))
          × IsReadable c F T (trims off len ∷ ops) w'
      unfolding last_byte record_byte only_writes
      trimmed-IsReadable =
          let rec' = trim_record c F T w off len in
          let (index, added, valid, gets) =
            get-add T w.index r.backed.valid off len rec' (omega arith) in
          let long = trim_grown_length in
          let tail = trim_head ++ [] in
          let log = F.content w.file ++ tail in
          let back : IsBacked T index log =
            added-IsBacked T w.index index (F.content w.file) tail r.backed rec' valid gets fits
              (λ k. cc) (omega (arith, long)) in
          let view =
            shown-added T w.index index (F.content w.file) tail r.backed rec' valid gets fits
              (λ k. cc) (omega (arith, long)) in
          (
            after_trim c F T w off len index,
            trim-eq c F T w off len index r.header_ok.0 r.header_ok.1 r.opened pos added done,
            record {
              header_ok = r.header_ok;
              opened = r.opened;
              offset =
                  add64-eq w.offset 24 (omega arith) ∙ omega (arith, long, ap length trim_grown);
              backed = subst (IsBacked T index) (sym trim_grown) back;
              head = (
                r.head.0 ++ tail,
                trim_grown
                    ∙ ap (λ b. b ++ tail) r.head.1
                    ∙ append_assoc (header_bytes c F T) r.head.0 tail,
              );
              untrimmed = λ k x lr e. cc;
              shows = λ x.
                  ap (λ b. shown T index b x) trim_grown
                  ∙ view x
                  ∙ elim (Bool-cases (in_range off len x)) [
                    | inl h ↦ rw h refl
                    | inr h ↦ rw h (r.shows x)
                  ];
            },
          )
