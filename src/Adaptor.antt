-- ===== src/Adaptor.antt =====
-- internal/adaptor: byte-addressed readers and writers over block-addressed ones (io_reader.go,
-- io_read_writer.go) and the other way (block_reader.go). An int64 is its bit pattern, and a block size is
-- positive. What an adaptor stands on is a parameter, an interface of internal/t.
pub mod Stacked
mod Tests
use logblock.Prelude.{
  ℕ, ◌+◌, ◌-◌, ◌*◌, ◌/◌, ◌%◌, ◌^◌, Bool, true, false, not, ◌&&◌, ◌||◌, Option, none, some, [],
  if◌then◌else◌, ltb, slt, ◌==◌, add64, sub64, Bytes, length, take, drop,
}

unfoldable pub mul64 : ℕ → ℕ → ℕ
mul64 a b = (a * b) % 2 ^ 64

-- Signed division by a positive number, towards 0
unfoldable pub sdiv : ℕ → ℕ → ℕ
sdiv a b = if ltb a (2 ^ 63) then a / b else (2 ^ 64 - (2 ^ 64 - a) / b) % 2 ^ 64

-- Whether the signed remainder by a positive number is 0
unfoldable pub divides : ℕ → ℕ → Bool
divides b a = if ltb a (2 ^ 63) then a % b == 0 else (2 ^ 64 - a) % b == 0

pub data Status : Type 0 where
  done eof failed : Status

-- What a read leaves in its buffer, and what it returns
pub record Read : Type 0 where
  pub buf : Bytes
  pub count : ℕ
  pub status : Status

-- `t.BlockHoleReader`: the first argument of a read is the length of the buffer.
pub record BlockHoleReader : Type 0 where
  pub read_blocks : ℕ → ℕ → Read
  pub next_block_data : ℕ → ℕ × Status
  pub next_block_hole : ℕ → ℕ × Status

-- `t.HoleReaderAt`; `none` is a panic.
pub record HoleReaderAt : Type 0 where
  pub read_at : ℕ → ℕ → Option Read
  pub next_data : ℕ → Option (ℕ × Status)
  pub next_hole : ℕ → Option (ℕ × Status)

-- `Reader.ReadAt` and `HoleReader` of io_reader.go. `read_buffer` is `Read` of the third-party buffer:
-- what it holds and the length to read give the bytes read.
module _ (read_buffer : Bytes → ℕ → Read) (block_size : ℕ) (br : BlockHoleReader) where
  -- The branch of a read that is not aligned to blocks
  unfoldable pub read_unaligned : ℕ → ℕ → Read
  read_unaligned len off =
      let start_block = sdiv off block_size in
      let end_block = sdiv (sub64 (add64 (add64 off len) block_size) 1) block_size in
      let read_size = mul64 (sub64 end_block start_block) block_size in
      let r = br.read_blocks read_size start_block in
      elim r.status [
        | failed ↦ record { buf = []; count = 0; status = failed }
        | done ↦ read_buffer (drop (off % block_size) (take (r.count * block_size) r.buf)) len
        | eof ↦ read_buffer (drop (off % block_size) (take (r.count * block_size) r.buf)) len
      ]

  unfoldable pub reader_read_at : ℕ → ℕ → Option Read
  reader_read_at len off =
      if slt off 0
      then none
      else if not (divides block_size len) || not (divides block_size off)
      then some (read_unaligned len off)
      else let r = br.read_blocks len (sdiv off block_size) in
        some (record r { count = mul64 r.count block_size })

  unfoldable pub reader_next_data : ℕ → Option (ℕ × Status)
  reader_next_data off =
      if slt off 0
      then none
      else let block_off = sdiv off block_size in
        let next = br.next_block_data block_off in
        some (if next.0 == block_off then off else mul64 next.0 block_size, next.1)

  unfoldable pub reader_next_hole : ℕ → Option (ℕ × Status)
  reader_next_hole off =
      if slt off 0
      then none
      else let block_off = sdiv off block_size in
        let next = br.next_block_hole block_off in
        some (if next.0 == block_off then off else mul64 next.0 block_size, next.1)

  -- `NewHoleReader`
  unfoldable pub hole_reader : HoleReaderAt
  hole_reader = record {
    read_at = reader_read_at;
    next_data = reader_next_data;
    next_hole = reader_next_hole;
  }

-- The result of a block read: an error for a length that is not whole blocks, or the read.
pub data BlockRead : Type 0 where
  invalid_size : BlockRead
  result : Read → BlockRead

unfoldable pub in_blocks : ℕ → Option (ℕ × Status) → Option (ℕ × Status)
in_blocks block_size none = none
in_blocks block_size (some r) = some (sdiv r.0 block_size, r.1)

-- `BlockReader` of block_reader.go
module _ (block_size : ℕ) (r : HoleReaderAt) where
  unfoldable pub block_read_blocks : ℕ → ℕ → Option BlockRead
  block_read_blocks len off =
      if not (divides block_size len)
      then some invalid_size
      else elim (r.read_at len (mul64 off block_size)) [
        | none ↦ none
        | some a ↦ some (result (record a { count = sdiv a.count block_size }))
      ]

  unfoldable pub block_next_data : ℕ → Option (ℕ × Status)
  block_next_data off = in_blocks block_size (r.next_data (mul64 off block_size))

  unfoldable pub block_next_hole : ℕ → Option (ℕ × Status)
  block_next_hole off = in_blocks block_size (r.next_hole (mul64 off block_size))

-- The result of a write: the errors of a size and of an offset, or the count and the error of the
-- writer below.
pub data Written : Type 0 where
  bad_size bad_offset : Written
  wrote : ℕ → Status → Written

-- `readWriter.WriteAt` of io_read_writer.go, over `WriteBlocks`
module _ {S : Type 0} (write_blocks : Bytes → ℕ → S → (ℕ × Status) × S) (block_size : ℕ) where
  unfoldable pub read_writer_write_at : Bytes → ℕ → S → Option (Written × S)
  read_writer_write_at b off s =
      if slt off 0
      then none
      else if not (divides block_size (length b))
      then some (bad_size, s)
      else if not (divides block_size off)
      then some (bad_offset, s)
      else let w = write_blocks b (sdiv off block_size) s in
        some (wrote (mul64 w.0.0 block_size) w.0.1, w.1)

unfoldable pub written_blocks : {S : Type 0} → ℕ → Option (Written × S) → Option (Written × S)
written_blocks block_size none = none
written_blocks block_size (some (bad_size, s)) = some (bad_size, s)
written_blocks block_size (some (bad_offset, s)) = some (bad_offset, s)
written_blocks block_size (some (wrote n status, s)) = some (wrote (sdiv n block_size) status, s)

-- `BlockReadWriter.WriteBlocks` of block_reader.go, over `WriteAt`
module _ {S : Type 0} (write_at : Bytes → ℕ → S → Option (Written × S)) (block_size : ℕ) where
  unfoldable pub block_write_blocks : Bytes → ℕ → S → Option (Written × S)
  block_write_blocks b off s =
      if not (divides block_size (length b))
      then some (bad_size, s)
      else written_blocks block_size (write_at b (mul64 off block_size) s)
