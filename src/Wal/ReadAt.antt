-- ===== src/Wal/ReadAt.antt =====
-- The reads of log data: the loop that `ReadAtFrom` of internal/wal/writer.go and `ReadAt` of
-- internal/wal/reader.go have in common, over an index and an `io.ReaderAt` of the log.
pub mod Backed
pub mod Loop
pub mod Whole
pub mod Extend
pub mod Writes
pub mod History
pub mod Device
use logblock.Prelude.{
  ℕ, zero, suc, ◌+◌, ◌-◌, Bool, true, false, ◌||◌, Option, none, some, [], ◌++◌, if◌then◌else◌,
  ◌==◌, Bytes, take, replicate, add64, sub64, slt,
}
use logblock.RangeMap.{RangeValue}
use logblock.RangeMap.RadixTree.{RadixTree}
use logblock.RangeMap.Extent
use logblock.Wal.{Codec, LogRecord}
use logblock.Wal.Output.{LogFile}
use logblock.Wal.Writer.{Writer}
use logblock.Wal.Reader.{Loaded}

pub data ReadStatus : Type 0 where
  complete end_of_data read_failed read_panic out_of_fuel : ReadStatus

-- The bytes that have been put into the buffer, `bytesRead`, and how the call ended
pub record LogRead : Type 0 where
  pub buf : Bytes
  pub count : ℕ
  pub status : ReadStatus

-- `io.ReaderAt`: from an offset and a length the bytes, and whether there was no error
abbrev pub ReaderAt : Type 0
ReaderAt = ℕ → ℕ → Bytes × Bool

-- Rest of the loop: the length and the offset that are left, what is read and how much
abbrev pub Rest : Type 0
Rest = ℕ → ℕ → Bytes → ℕ → LogRead

-- `if int64(n) > rem { n = int(rem) }`
unfoldable pub at_most : ℕ → ℕ → ℕ
at_most n rem = if slt rem n then rem else n

-- The part of the loop behind the bounds of a record, for `k` bytes at `lr_off` in it
unfoldable pub read_bytes : ReaderAt → Rest → LogRecord → ℕ → ℕ → ℕ → ℕ → Bytes → ℕ → LogRead
read_bytes ra next lr lr_off k len off acc n =
    let got = ra (add64 lr.log_offset lr_off) k in
    if lr.zero
    then next (len - k) (add64 off k) (acc ++ replicate k 0) (n + k)
    else if got.1
    then next (len - k) (add64 off k) (acc ++ take k got.0) (n + k)
    else record { buf = acc; count = n; status = read_failed }

-- The loop's body where a record covers the offset
unfoldable pub read_record : ReaderAt → Rest → RangeValue LogRecord → ℕ → ℕ → Bytes → ℕ → LogRead
read_record ra next mr len off acc n =
    let lr = mr.value in
    let k = at_most len (sub64 (add64 mr.offset mr.length) off) in
    let lr_off = sub64 off lr.offset in
    let lr_rem = sub64 lr.length lr_off in
    if slt lr_off 0 || slt lr_rem 0
    then record { buf = acc; count = n; status = read_panic }
    else if slt lr_rem k
    then record { buf = acc; count = n; status = read_panic }
    else read_bytes ra next lr lr_off k len off acc n

-- The loop's body in a hole, where `NextKey` has found `found`
unfoldable pub read_gap : Rest → Option ℕ → ℕ → ℕ → Bytes → ℕ → LogRead
read_gap next none len off acc n = record { buf = acc; count = n; status = end_of_data }
read_gap next (some found) len off acc n =
    let z = at_most len (sub64 found off) in
    next (len - z) (add64 off z) (acc ++ replicate z 0) (n + z)

module _ (T : RadixTree LogRecord) (m : T.Tree) (ra : ReaderAt) where
  unfoldable pub read_from_log : ℕ → Rest
  read_from_log zero len off acc n = record { buf = acc; count = n; status = out_of_fuel }
  read_from_log (suc fuel) len off acc n =
      let next = read_from_log fuel in
      let body : LogRead = elim (Extent.get_with_range T m off) [
        | none ↦ read_gap next (Extent.next_key T m off) len off acc n
        | some mr ↦ read_record ra next mr len off acc n
      ] in
      if len == 0 then record { buf = acc; count = n; status = complete } else body

-- `ReadAtFrom` of the writer and `ReadAt` of the reader; every iteration reads a byte at least.
unfoldable pub read_at_from :
    (c : Codec) (F : LogFile) (T : RadixTree LogRecord) → Writer c F T → ReaderAt → ℕ → ℕ → LogRead
read_at_from c F T w ra len off = read_from_log T w.index ra (suc len) len off [] 0

unfoldable pub reader_read_at :
    (c : Codec) (T : RadixTree LogRecord) → Loaded c T → ReaderAt → ℕ → ℕ → LogRead
reader_read_at c T r ra len off = read_from_log T r.index ra (suc len) len off [] 0
