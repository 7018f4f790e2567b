-- ===== src/Wal/Recovery/Crash.antt =====
-- What survives a crash: the reader of internal/wal/reader.go on a log that ends with whole entries or
-- with a torn one.
use logblock.Prelude.{
  ℕ, suc, ◌+◌, ◌-◌, ◌≤◌, ◌<◌, ◌^◌, ◌≡◌, refl, sym, ◌∙◌, ap, Bool, false, inl, inr, none, some, drop,
  Bool-cases, [], ◌∷◌, ◌++◌, ◌&&◌, arith, if◌then◌else◌, ltb, leb, ◌==◌, Bytes, length, take, le,
  of_le, of_le-le, length-append, append_assoc, append-nil, take-append, drop-append, bytes_equal,
}
use logblock.RangeMap.RadixTree.{RadixTree}
use logblock.Wal.{Codec, LogRecord, max_write_size, header_magic, footer_magic}
use logblock.Wal.Output.{LogFile}
use logblock.Wal.Writer.{Writer, header_bytes, log_header}
use logblock.Wal.Reader.{
  Status, done, unexpected_eof, end_of_file, next_packet, log_end, stop, load_loop, read_header,
  parse_header, header_ok,
}
use logblock.Wal.Reader.Packets.{data_bytes, next_packet-torn}
use logblock.Wal.NewReader.{new_reader, scan, read_index}
use logblock.Wal.Recovery.{IsRecoverable, head_len}

-- How `NewReader` ends on a log whose last entry lost all but its first `n` bytes.
abbrev pub torn_status : ℕ → Status
torn_status n = if n == 0 then done else if leb 8 n && ltb n 16 then end_of_file else unexpected_eof

module _ (c : Codec) (F : LogFile) (T : RadixTree LogRecord) where
  -- The protobuf header is small.
  abbrev pub SmallHeader : Type 0
  SmallHeader = length (c.marshal_header (log_header c F T)) ≤ 65536

  read_header_sized :
      (s0 s1 s2 s3 : ℕ) (rest : Bytes)
      → read_header c (header_magic ++ (s0 ∷ s1 ∷ s2 ∷ s3 ∷ rest))
        ≡ parse_header c (of_le (s0 ∷ s1 ∷ s2 ∷ s3 ∷ [])) rest
  unfolding read_header bytes_equal
  read_header_sized s0 s1 s2 s3 rest =
      let long : ltb (length (header_magic ++ (s0 ∷ s1 ∷ s2 ∷ s3 ∷ rest))) 8 ≡ false =
        ground arith in
      let long' : ltb (length (s0 ∷ s1 ∷ s2 ∷ s3 ∷ rest)) 4 ≡ false = ground arith in
      rw (long, long')

  parse_header-marshal :
      (rest : Bytes)
      → SmallHeader
      → let buf = c.marshal_header (log_header c F T) in
        parse_header c (length buf) (buf ++ rest)
        ≡ header_ok (8 + (4 + length buf)) (log_header c F T) rest
  unfolding parse_header
  parse_header-marshal rest small =
      let buf = c.marshal_header (log_header c F T) in
      let fits : ltb 65536 (length buf) ≡ false = ground arith in
      let there : ltb (length (buf ++ rest)) (length buf) ≡ false =
        ground (arith, length-append buf rest) in
      let parsed : c.unmarshal_header (take (length buf) (buf ++ rest)) ≡ some (log_header c F T) =
        rw (take-append buf rest) (c.unmarshal-marshal_header (log_header c F T)) in
      rw (fits, there, parsed, parse_header) (ap (header_ok _ _) (drop-append buf rest))

  pub read_header-bytes :
      (rest : Bytes)
      → SmallHeader
      → read_header c (header_bytes c F T ++ rest)
        ≡ header_ok (length (header_bytes c F T)) (log_header c F T) rest
  unfolding header_bytes
  read_header-bytes rest small =
      let buf = c.marshal_header (log_header c F T) in
      let len : of_le (le 4 (length buf)) ≡ length buf = of_le-le 4 (length buf) (omega arith) in
      let total : 8 + (4 + length buf) ≡ length (header_bytes c F T) = omega arith in
      read_header_sized _ _ _ _ (buf ++ rest)
      ∙ ap (λ n. parse_header c n (buf ++ rest)) len
      ∙ parse_header-marshal rest small
      ∙ ap (λ n. header_ok n (log_header c F T) rest) total

-- Whether the last eight bytes of a file are those that a footer ends in
unfoldable pub ends_in_footer : Bytes → Bool
ends_in_footer log = bytes_equal (drop 8 (take 16 (drop (length log - 16) log))) footer_magic

read_index-none :
    (c : Codec) (T : RadixTree LogRecord) (eof : Bool) (log : Bytes)
    → ends_in_footer log ≡ false
    → read_index c T eof log (length log) ≡ none
unfolding ends_in_footer read_index
read_index-none c T eof log bare =
    let end = take 16 (drop (length log - 16) log) in
    elim (Bool-cases (ltb (length log) 16)) [
      | inl h ↦ rw h refl
      | inr h ↦ rw h (elim (Bool-cases (ltb (length end) 16)) [
        | inl k ↦ rw k refl
        | inr k ↦ rw k (elim (Bool-cases (eof && leb (length log) (length log))) [
          | inl l ↦ rw l refl
          | inr l ↦ rw l (rw bare refl)
        ])
      ])
    ]

module _ (c : Codec) (F : LogFile) (T : RadixTree LogRecord) (w : Writer c F T)
    (r : IsRecoverable c F T w) where
  load_from :
      (tail : Bytes)
      → load_loop c T (suc (length (r.body ++ tail))) (r.body ++ tail) (head_len c F T) T.empty 0
        ≡ load_loop c T (suc (length (r.body ++ tail) - r.count)) tail w.offset w.index w.end
  load_from tail =
      let n = length (r.body ++ tail) in
      let enough : r.count ≤ n = omega (arith, length-append r.body tail, r.counted) in
      let e : suc n - r.count ≡ suc (n - r.count) = omega arith in
      r.replays (suc n) tail (omega arith) ∙ ap (λ k. load_loop c T k tail w.offset w.index w.end) e

  load_loop_stops :
      (fuel : ℕ) (tail : Bytes) (s : Status)
      → next_packet c tail ≡ stop s
      → load_loop c T (suc fuel) tail w.offset w.index w.end
        ≡ record { index = w.index; end = w.end; status = s }
  unfolding load_loop
  load_loop_stops fuel tail s e = rw (e, load_loop)

  load_loop_ends :
      (fuel : ℕ) (tail : Bytes)
      → next_packet c tail ≡ log_end
      → load_loop c T (suc fuel) tail w.offset w.index w.end
        ≡ record { index = w.index; end = w.end; status = done }
  unfolding load_loop
  load_loop_ends fuel tail e = rw (e, load_loop)

  -- `NewReader` of a file that does not end in a footer scans what is behind the header.
  new_reader-scan :
      (eof : Bool) (tail : Bytes)
      → SmallHeader c F T
      → ends_in_footer (header_bytes c F T ++ (r.body ++ tail)) ≡ false
      → new_reader c T eof
          (header_bytes c F T ++ (r.body ++ tail))
          (length (header_bytes c F T ++ (r.body ++ tail)))
        ≡ load_loop c T (suc (length (r.body ++ tail) - r.count)) tail w.offset w.index w.end
  unfolding new_reader scan
  new_reader-scan eof tail small bare =
      let log = header_bytes c F T ++ (r.body ++ tail) in
      let unread = read_index-none c T eof log bare in
      let no_index : (if ltb 0 (length log) then read_index c T eof log (length log) else none)
          ≡ none =
        elim (Bool-cases (ltb 0 (length log))) [ inl h ↦ rw h unread | inr h ↦ rw h refl ] in
      rw (read_header-bytes c F T (r.body ++ tail) small, new_reader)
        (rw (no_index, scan) (load_from tail))

  -- A scan of the whole entries
  pub recovers :
      (eof : Bool)
      → SmallHeader c F T
      → ends_in_footer (F.content w.file) ≡ false
      → new_reader c T eof (F.content w.file) (length (F.content w.file))
        ≡ record { index = w.index; end = w.end; status = done }
  recovers eof small bare =
      let split = r.content ∙ ap (λ b. header_bytes c F T ++ b) (sym (append-nil r.body)) in
      ap (λ b. new_reader c T eof b (length b)) split
      ∙ new_reader-scan eof [] small (ap ends_in_footer (sym split) ∙ bare)
      ∙ load_loop_ends (length (r.body ++ []) - r.count) [] (unfold next_packet in refl)

  module _ (p : Bytes) (off : ℕ) (pos : 0 < length p) (small_write : length p ≤ max_write_size)
      (fits : off < 2 ^ 64) where
    abbrev torn : ℕ → Bytes
    torn n = take n (data_bytes c off p fits pos small_write)

    torn_end :
        (n fuel : ℕ)
        → n < 16 + length p
        → load_loop c T (suc fuel) (torn n) w.offset w.index w.end
          ≡ record { index = w.index; end = w.end; status = torn_status n }
    torn_end n fuel lt = ground (
      arith,
      next_packet-torn c off p fits pos small_write n,
      load_loop_ends fuel (torn n),
      load_loop_stops fuel (torn n) end_of_file,
      load_loop_stops fuel (torn n) unexpected_eof,
    )

    -- A scan with the first `n` bytes of one more entry
    pub recovers_torn :
        (eof : Bool) (n : ℕ)
        → n < 16 + length p
        → SmallHeader c F T
        → ends_in_footer (F.content w.file ++ torn n) ≡ false
        → new_reader c T eof (F.content w.file ++ torn n) (length (F.content w.file ++ torn n))
          ≡ record { index = w.index; end = w.end; status = torn_status n }
    recovers_torn eof n lt small bare =
        let split =
          ap (λ b. b ++ torn n) r.content ∙ append_assoc (header_bytes c F T) r.body (torn n) in
        ap (λ b. new_reader c T eof b (length b)) split
        ∙ new_reader-scan eof (torn n) small (ap ends_in_footer (sym split) ∙ bare)
        ∙ torn_end n (length (r.body ++ torn n) - r.count) lt
