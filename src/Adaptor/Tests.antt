-- ===== src/Adaptor/Tests.antt =====
-- The theorems on internal/adaptor with a concrete block reader and writer.
use logblock.Prelude.{ℕ, ◌+◌, ◌*◌, ◌/◌, ◌≡◌, refl, some, [], Bytes, length, replicate, take, arith}
use logblock.Adaptor.{
  done, eof, Status, Read, BlockHoleReader, result, hole_reader, block_read_blocks,
  read_writer_write_at, block_write_blocks, wrote,
}
use logblock.Adaptor.Stacked.{
  block_read_blocks-hole_reader, block_write_blocks-read_writer_write_at,
}

-- Blocks of sevens, with data from three blocks further on.
abbrev sevens : BlockHoleReader
sevens = record {
  read_blocks = λ len off. record { buf = replicate len 7; count = len / 512; status = eof };
  next_block_data = λ off. (off + 3, done);
  next_block_hole = λ off. (off, done);
}

abbrev plain_read : Bytes → ℕ → Read
plain_read b n = record { buf = take n b; count = length (take n b); status = done }

-- A writer that keeps what it is given last.
abbrev keep : Bytes → ℕ → Bytes → (ℕ × Status) × Bytes
keep b off old = ((length b / 512, done), b)

block_read_blocks-hole_reader_example :
    block_read_blocks 512 (hole_reader plain_read 512 sevens) (2 * 512) 9
    ≡ some (result (sevens.read_blocks (2 * 512) 9))
block_read_blocks-hole_reader_example =
    block_read_blocks-hole_reader plain_read 512 (omega arith) sevens 9 (omega arith) 2
      (omega arith) (omega arith)

block_write_blocks-read_writer_write_at_example :
    block_write_blocks (read_writer_write_at keep 512) 512 (replicate 1024 7) 9 []
    ≡ some (wrote 2 done, replicate 1024 7)
block_write_blocks-read_writer_write_at_example =
    block_write_blocks-read_writer_write_at keep 512 (omega arith) (replicate 1024 7) 2 9 [] refl
      (omega arith) (omega arith) (omega arith)
