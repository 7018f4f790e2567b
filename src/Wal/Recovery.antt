-- ===== src/Wal/Recovery.antt =====
-- Crash recovery: what `NewReader` of internal/wal/reader.go makes of the file that the writer of
-- internal/wal/writer.go has written so far.
pub mod Start
pub mod Crash
pub mod Logs
use logblock.Prelude.{
  ℕ, zero, suc, ◌+◌, ◌-◌, ◌*◌, ◌≤◌, ◌<◌, ◌%◌, ◌^◌, ◌≡◌, ◌≢◌, refl, sym, ◌∙◌, ap, Bool, true, false,
  Option, none, some, List, [], ◌∷◌, ◌++◌, arith, if◌then◌else◌, ltb, ◌==◌, not, Bytes, length,
  take, drop, length-drop, dec_lt, ℕ_discrete, le, of_le, of_le-le, length-le, length-append,
  append_assoc, append-nil, add64, add64-eq, sub64, sub64-eq, slt, subst, Option-cases, Bool-cases,
  inl, inr, ◌⊎◌,
}
use logblock.RangeMap.RadixTree.{RadixTree}
use logblock.RangeMap.Extent
use logblock.RangeMap.Extent.Invariant.{IsValid}
use logblock.RangeMap.Extent.Update.{get-add}
use logblock.Wal.{Codec, LogRecord, data_entry, max_write_size}
use logblock.Wal.Entry.{LogEntry, make_log_entry, entry_len, size_and_type, payload_header}
use logblock.Wal.Output.{LogFile}
use logblock.Wal.Writer.{
  Writer, Outcome, ok, err, panic, header_bytes, write_header, write_at, write_at_header, log_entry,
  index_add, write_log_entry,
}
use logblock.Wal.Writer.Appends.{content-write_log_entry}
use logblock.Wal.Reader.{next_packet, packet, Loaded, load_loop, max_end}
use logblock.Wal.Reader.Packets.{data_bytes, length-data_bytes, next_packet-data}

module _ (c : Codec) (F : LogFile) (T : RadixTree LogRecord) where
  abbrev pub W : Type 0
  W = Writer c F T

  abbrev head_len : ℕ
  head_len = length (header_bytes c F T)

  -- The header and whole entries are in the file, and a scan of the entries, whatever follows them,
  -- goes on with the writer's index.
  pub record IsRecoverable (w : W) : Type 0 where
    pub header_ok : (w.header_done ≡ true) × (w.header_err ≡ none)
    pub opened : w.is_open ≡ true
    pub body : Bytes
    pub count : ℕ
    pub content : F.content w.file ≡ header_bytes c F T ++ body
    pub offset : w.offset ≡ head_len + length body
    pub counted : count * 16 ≤ length body
    pub valid : IsValid (T.at w.index)
    pub replays :
        (fuel : ℕ) (tail : Bytes)
        → count ≤ fuel
        → load_loop c T fuel (body ++ tail) head_len T.empty 0
          ≡ load_loop c T (fuel - count) tail w.offset w.index w.end

  abbrev pub record_of : W → Bytes → ℕ → LogRecord
  record_of w p off = record {
    log_offset = add64 w.offset 16;
    offset = off;
    length = length p;
    zero = false;
  }

  load_loop-data :
      (fuel : ℕ) (p : Bytes) (off log_off : ℕ) (tail : Bytes) (index index' : T.Tree) (end : ℕ)
      → (small_off : off < 2 ^ 64) (pos : 0 < length p) (small : length p ≤ max_write_size)
      → Extent.add T index off
          (length p)
          (record { log_offset = add64 log_off 16; offset = off; length = length p; zero = false })
        ≡ some index'
      → load_loop c T (suc fuel) (data_bytes c off p small_off pos small ++ tail) log_off index end
        ≡ load_loop c T fuel tail
            (add64 log_off (16 + length p))
            index'
            (max_end c T end off (length p))
  unfolding load_loop
  load_loop-data fuel p off log_off tail index index' end small_off pos small added =
      rw (next_packet-data c off p small_off pos small tail, load_loop, added)

module _ (c : Codec) (F : LogFile) (T : RadixTree LogRecord) (w : Writer c F T) (p : Bytes)
    (off : ℕ) where
  abbrev pub entry : LogEntry
  entry = make_log_entry c data_entry off (length p) p

  abbrev pub written : F.File × Bool
  written = write_log_entry c F T w.file entry

  -- The writer after a write that succeeds.
  abbrev pub after : T.Tree → Writer c F T
  after index = record w {
    file = written.0;
    offset = add64 w.offset (16 + length p);
    index = index;
    end = max_end c T w.end off (length p);
  }

  pub write_header-done :
      w.header_done ≡ true → w.header_err ≡ none → write_header c F T w ≡ (none, w)
  unfolding write_header
  write_header-done h e = rw (h, e)

  pub lengths : (length entry.header_buf ≡ 16) × (entry_len entry ≡ 16 + length p)
  unfolding make_log_entry size_and_type payload_header entry_len
  lengths = omega arith

  pub write_at-eq :
      (index : T.Tree)
      → w.header_done ≡ true
      → w.header_err ≡ none
      → w.is_open ≡ true
      → 0 < length p
      → length p ≤ max_write_size
      → Extent.add T w.index off (length p) (record_of c F T w p off) ≡ some index
      → written.1 ≡ true
      → write_at c F T w p off ≡ (ok (length p), after index)
  unfolding write_at write_at_header log_entry index_add max_end
  write_at-eq index h e opened pos small added done = ground (arith, write_header-done, lengths)

  module _ (r : IsRecoverable c F T w) (pos : 0 < length p) (small : length p ≤ max_write_size)
      (fits : off + length p < 2 ^ 64) (room : w.offset + 16 + length p < 2 ^ 64) where
    abbrev new_bytes : Bytes
    new_bytes = data_bytes c off p (omega arith) pos small

    after-replays :
        (index : T.Tree)
        → Extent.add T w.index off (length p) (record_of c F T w p off) ≡ some index
        → (fuel : ℕ) (tail : Bytes) → suc r.count ≤ fuel
        → load_loop c T fuel ((r.body ++ new_bytes) ++ tail) (head_len c F T) T.empty 0
          ≡ load_loop c T (fuel - suc r.count) tail (after index).offset index (after index).end
    after-replays index added fuel tail le =
        let next : fuel - r.count ≡ suc (fuel - suc r.count) = omega arith in
        ap (λ b. load_loop c T fuel b (head_len c F T) T.empty 0)
          (append_assoc r.body new_bytes tail)
        ∙ r.replays fuel (new_bytes ++ tail) (omega arith)
        ∙ ap (λ n. load_loop c T n (new_bytes ++ tail) w.offset w.index w.end) next
        ∙ load_loop-data c F T (fuel - suc r.count) p off w.offset tail w.index index w.end
            (omega arith) pos small added

    -- A write that the file accepts keeps the log recoverable.
    pub write_at-IsRecoverable :
        written.1 ≡ true
        → (w' : Writer c F T) × (write_at c F T w p off ≡ (ok (length p), w'))
          × IsRecoverable c F T w'
    unfolding make_log_entry
    write_at-IsRecoverable done =
        let (index, added, valid, _) =
          get-add T w.index r.valid off (length p) (record_of c F T w p off) fits in
        let len = length-data_bytes c off p (omega arith) pos small in
        (
          after index,
          write_at-eq index r.header_ok.0 r.header_ok.1 r.opened pos small added done,
          record {
            header_ok = r.header_ok;
            opened = r.opened;
            body = r.body ++ new_bytes;
            count = suc r.count;
            content =
                content-write_log_entry c F T w.file entry refl done
                ∙ ap (λ b. b ++ new_bytes) r.content
                ∙ append_assoc (header_bytes c F T) r.body new_bytes;
            offset = omega (
              arith,
              r.offset,
              add64-eq w.offset (16 + length p),
              length-append r.body new_bytes,
              len,
            );
            counted = omega (arith, r.counted, length-append r.body new_bytes, len);
            valid = valid;
            replays = after-replays index added;
          },
        )
