-- ===== src/Wal/CloseWriter/Reopen/Footer.antt =====
-- `readIndex` of internal/wal/reader.go finds the section that a log of internal/wal/writer.go was closed with.
use logblock.Prelude.{
  suc, ◌+◌, ◌-◌, ◌%◌, ◌<◌, ◌^◌, ◌≡◌, refl, sym, ap, ◌∙◌, true, false, some, ◌++◌, arith, ltb, ◌==◌,
  Bytes, of_le, of_le-le, length, take, drop, take-append, drop-append, length-append, append_assoc,
  bytes_equal, take_length,
}
use logblock.RangeMap.RadixTree.{RadixTree}
use logblock.Wal.{Codec, LogRecord, footer_magic}
use logblock.Wal.Output.{LogFile}
use logblock.Wal.Reader.{Loaded}
use logblock.Wal.NewReader.{read_index, read_section, index_loop, empty_index}
use logblock.Wal.CloseWriter.{footer_end}

module _ (c : Codec) (F : LogFile) (T : RadixTree LogRecord) (pre section : Bytes)
    (small : length section < 2 ^ 32) where
  abbrev end : Bytes
  end = footer_end c F T section

  abbrev pub closed : Bytes
  closed = pre ++ (section ++ footer_end c F T section)

  end_length : length end ≡ 16
  unfolding footer_end
  end_length = refl

  closed_length : length closed ≡ length pre + (length section + 16)
  closed_length =
      length-append pre (section ++ end) ∙ omega (arith, length-append section end, end_length)

  drop_end : drop (length closed - 16) closed ≡ end
  drop_end =
      let at : length closed - 16 ≡ length (pre ++ section) =
        omega (arith, closed_length, length-append pre section) in
      ap (λ n. drop n closed) at
      ∙ ap (drop (length (pre ++ section))) (sym (append_assoc pre section end))
      ∙ drop-append (pre ++ section) end

  take_end : take 16 end ≡ end
  take_end = ap (λ n. take n end) (sym end_length) ∙ take_length end

  drop-section : drop (length closed - 16 - length section) closed ≡ section ++ end
  drop-section =
      let at : length closed - 16 - length section ≡ length pre = omega (arith, closed_length) in
      ap (λ n. drop n closed) at ∙ drop-append pre (section ++ end)

  size_field : of_le (take 4 end) ≡ length section
  unfolding footer_end
  size_field = of_le-le 4 (length section % 2 ^ 32) (omega arith) ∙ omega arith

  crc_field : of_le (take 4 (drop 4 end)) ≡ c.crc section
  unfolding footer_end
  crc_field = of_le-le 4 (c.crc section) (omega (arith, c.crc_bound section))

  magic_field : bytes_equal (drop 8 end) footer_magic ≡ true
  unfolding footer_end bytes_equal
  magic_field = refl

  pub read_index-closed :
      (l : Loaded c T)
      → index_loop c T (suc (length section)) section (empty_index c T) ≡ some l
      → read_index c T false closed (length closed) ≡ some l
  unfolding read_index
  read_index-closed l loaded =
      let long : ltb (length closed) 16 ≡ false = ground (arith, closed_length) in
      let whole : take 16 (drop (length closed - 16) closed) ≡ end =
        ap (take 16) drop_end ∙ take_end in
      let there : ltb (length end) 16 ≡ false = ground (arith, end_length) in
      let room : ltb (length closed - 16) (length section) ≡ false =
        ground (arith, closed_length) in
      let part : take (length section) (drop (length closed - 16 - length section) closed)
          ≡ section =
        ap (take (length section)) drop-section ∙ take-append section end in
      let same : (c.crc section == c.crc section) ≡ true = ground arith in
      rw long (
        rw whole (
          rw there (
            rw magic_field (
              rw size_field (
                rw room (
                  rw part (
                    rw crc_field
                      (unfold read_section in rw (loaded, read_section) (rw same refl)))))))))
