-- ===== src/Wal/Reader/Packets.antt =====
-- What `NewReader` of internal/wal/reader.go makes of an entry that `makeLogEntry` of
-- internal/wal/writer.go built.
use logblock.Prelude.{
  ℕ, suc, ◌+◌, ◌-◌, ◌≤◌, ◌<◌, ◌%◌, ◌^◌, ◌≡◌, ◌≢◌, refl, sym, ◌∙◌, ap, true, false, some, [], ◌∷◌,
  ◌++◌, arith, if◌then◌else◌, ltb, ◌==◌, Bytes, length, take, drop, dec_lt, take_append_ge,
  length-take, leb, ◌&&◌, le, of_le, of_le-le, length-append, take-append, drop-append, sub64,
}
use logblock.Wal.{Codec, data_entry, max_write_size}
use logblock.Wal.Entry.{make_log_entry, size_and_type, payload_header, packet_size}
use logblock.Wal.Reader.{
  read_buf_size, copy_bytes, log_end, packet, stop, unexpected_eof, end_of_file, corrupted_log,
  check_body, read_body, read_typed, next_packet,
}
use logblock.Wal.Reader.Copy.{copy_bytes_all, copy_bytes_short}

module _ (c : Codec) where
  -- Eight bytes are there: the base of an entry.
  next_packet_base :
      (c0 c1 c2 c3 s0 s1 s2 t : ℕ) (rest : Bytes)
      → next_packet c (c0 ∷ c1 ∷ c2 ∷ c3 ∷ s0 ∷ s1 ∷ s2 ∷ t ∷ rest)
        ≡ read_typed c
            (c0 ∷ c1 ∷ c2 ∷ c3 ∷ s0 ∷ s1 ∷ s2 ∷ t ∷ [])
            t
            (of_le (s0 ∷ s1 ∷ s2 ∷ 0 ∷ []))
            rest
  unfolding next_packet
  next_packet_base c0 c1 c2 c3 s0 s1 s2 t rest =
      let long : ltb (suc (suc (suc (suc (suc (suc (suc (suc (length rest))))))))) 8 ≡ false =
        ground arith in
      rw long

  read_typed-data :
      (entry : Bytes) (size off : ℕ) (rest : Bytes)
      → 16 ≤ size
      → size < 2 ^ 32
      → off < 2 ^ 64
      → read_typed c entry 0 size (le 8 off ++ rest)
        ≡ read_body c entry true off (size - 16) size (le 8 off ++ rest)
  unfolding read_typed sub64
  read_typed-data entry size off rest ge lt small =
      let long : ltb (length (le 8 off ++ rest)) 8 ≡ false = ground arith in
      let value : of_le (take 8 (le 8 off ++ rest)) ≡ off = of_le-le 8 off small in
      let len : ((size + 2 ^ 64 - 8) % 2 ^ 64 + 2 ^ 64 - 8) % 2 ^ 64 ≡ size - 16 = omega arith in
      rw (long, value, len)

  -- Fewer than eight bytes.
  next_packet_tiny :
      (rest : Bytes) → 0 < length rest → length rest < 8 → next_packet c rest ≡ stop unexpected_eof
  unfolding next_packet
  next_packet_tiny [] pos short = absurd (omega arith)
  next_packet_tiny (b ∷ rest) pos short =
      let t : ltb (length (b ∷ rest)) 8 ≡ true = ground arith in rw t

  read_typed_cut :
      (entry : Bytes) (size : ℕ) (rest : Bytes)
      → length rest < 8
      → read_typed c entry 0 size rest ≡ stop end_of_file
  unfolding read_typed
  read_typed_cut entry size rest short = let t : ltb (length rest) 8 ≡ true = ground arith in rw t

  abbrev body_len : ℕ → ℕ
  body_len size = (size + 2 ^ 32 - 8) % 2 ^ 32

  -- The loop of `copy_bytes` over the bytes of the packet.
  copied :
      (size : ℕ) (b tail : Bytes)
      → body_len size ≡ length b
      → copy_bytes (body_len size) read_buf_size (body_len size) (b ++ tail) ≡ some (b, tail)
  copied size b tail e =
      ap (λ n. copy_bytes n read_buf_size n (b ++ tail)) e
      ∙ copy_bytes_all (length b) read_buf_size (length b) (b ++ tail) (omega arith) (omega arith)
          (omega (arith, length-append b tail))
      ∙ rw (take-append b tail, drop-append b tail)

  read_body_ok :
      (entry : Bytes) (off len size : ℕ) (b tail : Bytes)
      → body_len size ≡ length b
      → c.crc (drop 4 entry ++ b) ≡ of_le (take 4 entry)
      → read_body c entry true off len size (b ++ tail) ≡ packet true off len size tail
  unfolding read_body check_body
  read_body_ok entry off len size b tail e crc =
      let same : (c.crc (drop 4 entry ++ b) == of_le (take 4 entry)) ≡ true = ground arith in
      ap (check_body c entry true off len size) (copied size b tail e) ∙ rw same

  read_body_short :
      (entry : Bytes) (off len size : ℕ) (rest : Bytes)
      → length rest < body_len size
      → read_body c entry true off len size rest ≡ stop unexpected_eof
  unfolding read_body check_body
  read_body_short entry off len size rest short = ap (check_body c entry true off len size) (
      copy_bytes_short (body_len size) read_buf_size (body_len size) rest (omega arith)
        (omega arith) short)

  read_body_corrupted :
      (entry : Bytes) (off len size : ℕ) (b tail : Bytes)
      → body_len size ≡ length b
      → c.crc (drop 4 entry ++ b) ≢ of_le (take 4 entry)
      → read_body c entry true off len size (b ++ tail) ≡ stop corrupted_log
  unfolding read_body check_body
  read_body_corrupted entry off len size b tail e crc =
      let other : (c.crc (drop 4 entry ++ b) == of_le (take 4 entry)) ≡ false = ground arith in
      ap (check_body c entry true off len size) (copied size b tail e) ∙ rw other

module _ (c : Codec) (off : ℕ) (p : Bytes) (small_off : off < 2 ^ 64) (pos : 0 < length p)
    (small : length p ≤ max_write_size) where
  abbrev checked : Bytes
  checked = size_and_type data_entry (packet_size data_entry (length p)) ++ (le 8 off ++ p)

  -- The bytes of the entry for a write of `p` at `off`.
  abbrev pub data_bytes : Bytes
  data_bytes =
      (make_log_entry c data_entry off (length p) p).header_buf
      ++ (make_log_entry c data_entry off (length p) p).body

  pub length-data_bytes : length data_bytes ≡ 16 + length p
  unfolding make_log_entry size_and_type payload_header
  length-data_bytes = omega arith

  -- The first eight bytes, and what the checksum covers.
  abbrev base : Bytes
  base = le 4 (c.crc checked) ++ size_and_type data_entry (packet_size data_entry (length p))

  abbrev size_code : ℕ
  size_code = of_le (take 3 (le 4 ((8 + (8 + length p)) % 2 ^ 32)) ++ 0 ∷ [])

  size_code-eq : size_code ≡ 16 + length p
  size_code-eq = omega arith

  base_typed : (rest : Bytes) → next_packet c (base ++ rest) ≡ read_typed c base 0 size_code rest
  unfolding size_and_type packet_size
  base_typed rest = next_packet_base c _ _ _ _ _ _ _ _ rest

  crc_matches : c.crc (drop 4 base ++ (le 8 off ++ p)) ≡ of_le (take 4 base)
  unfolding size_and_type packet_size
  crc_matches = sym (of_le-le 4 (c.crc checked) (c.crc_bound checked))

  typed :
      (rest : Bytes)
      → next_packet c (base ++ (le 8 off ++ rest))
        ≡ read_body c base true off (length p) (16 + length p) (le 8 off ++ rest)
  typed rest =
      let len : 16 + length p - 16 ≡ length p = omega arith in
      base_typed (le 8 off ++ rest)
      ∙ ap (λ n. read_typed c base 0 n (le 8 off ++ rest)) size_code-eq
      ∙ read_typed-data c base (16 + length p) off rest (omega arith) (omega arith) small_off
      ∙ ap (λ n. read_body c base true off n (16 + length p) (le 8 off ++ rest)) len

  data_bytes-eq : (tail : Bytes) → data_bytes ++ tail ≡ base ++ (le 8 off ++ (p ++ tail))
  unfolding make_log_entry size_and_type packet_size payload_header
  data_bytes-eq tail = refl

  -- A whole entry at the head of the log is read back.
  pub next_packet-data :
      (tail : Bytes)
      → next_packet c (data_bytes ++ tail) ≡ packet true off (length p) (16 + length p) tail
  next_packet-data tail =
      ap (next_packet c) (data_bytes-eq tail)
      ∙ typed (p ++ tail)
      ∙ read_body_ok c base off (length p) (16 + length p) (le 8 off ++ p) tail (omega arith)
          crc_matches

  length-base : length base ≡ 8
  unfolding size_and_type
  length-base = refl

  data_bytes_lem : data_bytes ≡ base ++ (le 8 off ++ p)
  unfolding make_log_entry size_and_type packet_size payload_header
  data_bytes_lem = refl

  take_past_base : (n : ℕ) → 8 ≤ n → take n data_bytes ≡ base ++ take (n - 8) (le 8 off ++ p)
  take_past_base n ge =
      ap (take n) data_bytes_lem
      ∙ take_append_ge n base (le 8 off ++ p) (omega (arith, length-base))
      ∙ ap (λ k. base ++ take (n - k) (le 8 off ++ p)) length-base

  take_past_offset : (n : ℕ) → 16 ≤ n → take (n - 8) (le 8 off ++ p) ≡ le 8 off ++ take (n - 16) p
  take_past_offset n ge =
      let e : n - 8 - 8 ≡ n - 16 = omega arith in
      take_append_ge (n - 8) (le 8 off) p (omega arith) ∙ ap (λ k. le 8 off ++ take k p) e

  length-torn : (n : ℕ) → n < 16 + length p → length (take n data_bytes) ≡ n
  length-torn n lt = omega (arith, length-take n data_bytes, length-data_bytes)

  torn_base : (n : ℕ) → 0 < n → n < 8 → next_packet c (take n data_bytes) ≡ stop unexpected_eof
  torn_base n gt lt =
      next_packet_tiny c (take n data_bytes) (omega (arith, length-torn n))
        (omega (arith, length-torn n))

  torn_offset : (n : ℕ) → 8 ≤ n → n < 16 → next_packet c (take n data_bytes) ≡ stop end_of_file
  torn_offset n ge lt =
      ap (next_packet c) (take_past_base n ge)
      ∙ base_typed (take (n - 8) (le 8 off ++ p))
      ∙ read_typed_cut c base size_code (take (n - 8) (le 8 off ++ p))
          (omega (arith, length-take (n - 8) (le 8 off ++ p)))

  torn_data :
      (n : ℕ) → 16 ≤ n → n < 16 + length p → next_packet c (take n data_bytes) ≡ stop unexpected_eof
  torn_data n ge lt =
      ap (next_packet c)
        (take_past_base n (omega arith) ∙ ap (λ t. base ++ t) (take_past_offset n ge))
      ∙ typed (take (n - 16) p)
      ∙ read_body_short c base off (length p) (16 + length p) (le 8 off ++ take (n - 16) p)
          (omega (arith, length-take (n - 16) p))

  -- A torn entry: what the reader makes of its first `n` bytes.
  pub next_packet-torn :
      (n : ℕ)
      → n < 16 + length p
      → next_packet c (take n data_bytes) ≡ (
          if n == 0
          then log_end
          else if leb 8 n && ltb n 16
          then stop end_of_file
          else stop unexpected_eof)
  next_packet-torn n lt = elim (dec_lt 0 n) [
    | no none_left ↦ let e : n ≡ 0 = omega arith in rw e (unfold next_packet in refl)
    | yes gt ↦ elim (dec_lt n 8) [
      | yes tiny ↦ torn_base n gt tiny ∙ ground arith
      | no ge ↦ elim (dec_lt n 16) [
        | yes cut ↦ torn_offset n (omega arith) cut ∙ ground arith
        | no long ↦ torn_data n (omega arith) lt ∙ ground arith
      ]
    ]
  ]
