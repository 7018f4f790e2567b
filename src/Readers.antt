-- ===== src/Readers.antt =====
-- internal/readers/stacked_block_reader.go: a stack of block readers, in which the first reader that has a
-- block shows it. The readers are parameters. A size or offset is at most that of the device, an int64,
-- so that sums are plain; a block size is positive.
pub mod Views
pub mod Loop
pub mod Stack
mod Tests
use logblock.Prelude.{
  ℕ, zero, suc, ◌+◌, ◌-◌, ◌*◌, ◌/◌, ◌%◌, List, [], ◌∷◌, ◌++◌, if◌then◌else◌, ltb, leb, ◌==◌, not,
  ◌&&◌, Bytes, take, replicate,
}
use logblock.Adaptor.{Status, done, eof, failed, Read, BlockHoleReader}

-- What a read returns, with the bytes that it has put into the buffer, in order.
pub data StackRead : Type 0 where
  returned : Bytes → ℕ → Status → StackRead
  panic out_of_fuel : StackRead

-- The length of the blocks up to a limit, of those that fit in `len` bytes; the limit is not before the offset.
unfoldable pub length_up_to : ℕ → ℕ → ℕ → ℕ → ℕ
length_up_to block_size limit off len =
    if ltb (limit - off) (len / block_size) then (limit - off) * block_size else len

module _ (block_size num_blocks : ℕ) where
  -- The end of the stack shows zeros.
  unfoldable pub read_zeros : ℕ → ℕ → StackRead
  read_zeros len off = returned (replicate len 0) (len / block_size) done

  module _ (tr : BlockHoleReader) (below : ℕ → ℕ → StackRead) where
    -- The hole before the next data is read from the readers below; `next` is the rest of the loop, with
    -- the length and offset that are left, the bytes and blocks read.
    unfoldable pub after_below :
        (ℕ → ℕ → Bytes → ℕ → StackRead) → ℕ → ℕ → Bytes → ℕ → StackRead → StackRead
    after_below next len off acc blocks panic = panic
    after_below next len off acc blocks out_of_fuel = out_of_fuel
    after_below next len off acc blocks (returned b n done) =
        next (len - n * block_size) (off + n) (acc ++ b) (blocks + n)
    after_below next len off acc blocks (returned b n s) = returned (acc ++ b) (blocks + n) s

    unfoldable pub read_below : (ℕ → ℕ → Bytes → ℕ → StackRead) → ℕ → ℕ → Bytes → ℕ → ℕ → StackRead
    read_below next len off acc blocks next_data =
        if ltb next_data off
        then panic
        else after_below next len off acc blocks
            (below (length_up_to block_size next_data off len) off)

    unfoldable pub read_hole : (ℕ → ℕ → Bytes → ℕ → StackRead) → ℕ → ℕ → Bytes → ℕ → StackRead
    read_hole next len off acc blocks =
        let d = tr.next_block_data off in
        elim d.1 [
          | done ↦ read_below next len off acc blocks d.0
          | eof ↦ read_below next len off acc blocks num_blocks
          | failed ↦ returned acc blocks failed
        ]

    -- The result of a read of `read_blocks` blocks of data: an error returns the count of this read alone.
    unfoldable pub after_data :
        (ℕ → ℕ → Bytes → ℕ → StackRead) → ℕ → ℕ → Bytes → ℕ → ℕ → Read → StackRead
    after_data next len off acc blocks read_blocks r =
        let acc' = acc ++ take (r.count * block_size) r.buf in
        let left = len - r.count * block_size in
        let rest =
          if not (r.count == read_blocks)
          then panic
          else if left == 0
          then returned acc' (blocks + r.count) done
          else read_hole next left (off + r.count) acc' (blocks + r.count) in
        if ltb len (r.count * block_size) then panic else elim r.status [
          | done ↦ rest
          | failed ↦ returned acc' r.count failed
          | eof ↦ if r.count == read_blocks then rest else returned acc' r.count eof
        ]

    unfoldable pub read_data : (ℕ → ℕ → Bytes → ℕ → StackRead) → ℕ → ℕ → Bytes → ℕ → ℕ → StackRead
    read_data next len off acc blocks hole =
        let n = length_up_to block_size hole off len in
        after_data next len off acc blocks (n / block_size) (tr.read_blocks n off)

    -- The loop of `readBlocksFrom` over the first reader
    unfoldable pub read_loop : ℕ → ℕ → ℕ → Bytes → ℕ → StackRead
    read_loop zero len off acc blocks = out_of_fuel
    read_loop (suc fuel) len off acc blocks =
        let next = read_loop fuel in
        let hole = (tr.next_block_hole off).0 in
        let go =
          if ltb off hole
          then read_data next len off acc blocks hole
          else read_hole next len off acc blocks in
        if len == 0
        then returned acc blocks done
        else if leb num_blocks off
        then returned acc blocks eof
        else go

  -- `readBlocksFrom`; an iteration reads at least a block of a sound reader.
  unfoldable pub read_blocks_from : List BlockHoleReader → ℕ → ℕ → StackRead
  read_blocks_from [] len off = read_zeros len off
  read_blocks_from (tr ∷ rs) len off =
      read_loop tr (read_blocks_from rs) (suc (len / block_size)) len off [] 0

  -- `Size`
  unfoldable pub stack_size : ℕ
  stack_size = block_size * num_blocks

-- `ReadBlocks`: an error for a length that is not whole blocks, or the read.
pub data StackResult : Type 0 where
  invalid_read_size : StackResult
  result : StackRead → StackResult

unfoldable pub stack_read_blocks : ℕ → ℕ → List BlockHoleReader → ℕ → ℕ → StackResult
stack_read_blocks block_size num_blocks rs len off =
    if len % block_size == 0
    then result (read_blocks_from block_size num_blocks rs len off)
    else invalid_read_size
