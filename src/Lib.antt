-- ===== src/Lib.antt =====
-- Verification of logblock2, a log-structured block device (Go).
--
-- The device is a stack of data files, newest first. Writes go to a write-ahead log (internal/wal),
-- which keeps in memory a map from byte ranges of the device to places in the log
-- (internal/rangemap) and is scanned to rebuild that map when it is opened. Full logs are compacted
-- into tables of sparse blocks (internal/sparseblock), and an index says which table a block is in
-- (internal/blockmap). A read goes down a stack of readers (internal/readers). The list of the files and the geometry of the
-- device are its metadata (internal/metadata). Byte and block access are translated into each other by
-- adaptors (internal/adaptor).
--
-- Files and what they model:
--   Prelude: shared names, lists over the native numbers, Boolean tests, 64-bit words, little-endian
--     bytes, `do` for optional results.
--   RangeMap: internal/rangemap/range_map.go. RangeMap/Spec has what a range map promises,
--     RangeMap/RadixTree the laws of the third-party radix tree that the extents are kept in,
--     RangeMap/SortedTree an instance of them, RangeMap/Extent the operations of
--     internal/rangemap/extent_range_map.go: End is `map_end`, Get `get`, GetWithRange
--     `get_with_range`, NextKey `next_key`, NextEmpty `next_empty`, Remove `remove`, Add `add`,
--     Iterate `iterate`. RangeMap/Extent/Invariant says when a map is valid; the other files there are
--     named for the operation that they are about.
--     RangeMap/Bitmap is internal/rangemap/bitmap_range_map.go over the bit sets of
--     RangeMap/BitSets, of which RangeMap/BitFunctions is an instance. RangeMap/Index is the
--     interface of a range map for the block map.
--   Wal: internal/wal/consts.go and the messages. Wal/Entry is makeLogEntry and the methods of
--     logEntry, Wal/Writer the Writer of internal/wal/writer.go (WriteAt `write_at`, Trim `trim`,
--     writeHeader `write_header`, NextData, NextHole, Size, LogSize) over the file of Wal/Output,
--     Wal/Reader and Wal/NewReader the functions of internal/wal/reader.go (readHeader
--     `read_header`, loadLoop `load_loop`, readIndex `read_index`, NewReader `new_reader`), the
--     errors that internal/block/write_log.go tolerates among them. Wal/Recovery and its children are
--     about a log that is read back, whole or torn; Wal/Recovery/Logs has the theorems. Wal/ReadAt is ReadAtFrom `read_at_from` of the writer
--     and ReadAt `reader_read_at` of the reader, Wal/CloseWriter CloseWriter `close_writer`, and
--     Wal/ReadableLog internal/wal/readable_log.go with Size, NextData and NextHole of the reader.
--     Wal/CloseWriter/Reopen is about a log that is closed and opened again.
--   SparseBlock: the entries of internal/sparseblock/builder.go and their encoding.
--     SparseBlock/Builder is NewBuilder `new_builder`, AddBlocks `add_blocks` with its loop `fill`,
--     and writeIndex `write_index`; SparseBlock/Builder/Decode says which blocks an index stands for.
--     SparseBlock/Reader is internal/sparseblock/reader.go: Load `load`, getNextEntry
--     `get_next_entry`, NextData `next_data`. SparseBlock/ReadIndex relates writeIndex and readIndex.
--   Metadata: internal/metadata/metadata.go and the interface of internal/metadata/store.go, a
--     function per method.
--   Adaptor: internal/adaptor/io_reader.go, io_read_writer.go and block_reader.go. Adaptor/Stacked is
--     about one adaptor over the other.
--   Readers: internal/readers/stacked_block_reader.go (readBlocksFrom `read_blocks_from`, ReadBlocks
--     `stack_read_blocks`). Readers/Views says when a reader below is sound, by the blocks that it has.
--   BlockMap: internal/blockmap/reader.go (PushReader `push_reader`, RemoveTable `remove_table`, find
--     `find`, ReadBlocks `read_blocks`). BlockMap/Push is about the loop of PushReader, BlockMap/Tables
--     about the tables that are found, BlockMap/Parts about PushReader in the parts between which it has no
--     lock (`begin_push`, `continue_push`), BlockMap/Reads about ReadBlocks.
--   Util: Util/WaitBarrier is internal/util/wait_barrier.go (Start `start`, Done `done`,
--     BarrierWithUnlock `begin_barrier`), Util/OneRunner internal/util/one_runner.go (do `do_step`, Go
--     and Run `request`), each with a step relation over those that use it.
--   Tracker: Tracker/Writer is internal/tracker/writer.go, an operation in its parts under a lock and after
--     a wait (PushNewLog `push_new_log`, WriteBlocks `start_write` and `end_write`, Flush `start_flush` and
--     `end_flush`, Close `start_close`). Tracker/Writer/Logs is about the logs that are flushed,
--     Tracker/Writer/Writes and Replaced about writes while the log is replaced. Tracker/Reader is
--     internal/tracker/reader.go in the same way (readerMergeLoop `start_merge`, `merge_push`, `end_merge`;
--     PushWriter, RemoveWriter, PushReader, ReadBlocks, StartCompaction and the methods of its state);
--     Tracker/Reader/History has its step relation, Tracker/Reader/Invariant and Compaction say how the tables
--     stand to the block map, Tracker/Reader/State what holds of a state, Tracker/Reader/Calls and Sound that every step keeps it, Tracker/Reader/Between what is
--     shown in the middle of a call of PushReader, Tracker/Reader/Shown what a stack of readers shows,
--     and Tracker/Reader/Removal is about reads in progress while a log is removed.
--   App: internal/app/logblock/parse_size.go (ParseSizeString `parse_size_string`) and parse_nbd.go
--     (ParseNbdIndex `parse_nbd_index`), with the number parsing of the standard library.
--   Tests in a folder apply the theorems of the folder at concrete inputs.
--
-- Representation. A byte string is a list of numbers. An int64 or a uint64 is its bit pattern, a
-- number, with the wrap-around of an addition, subtraction or product written out and signed
-- comparisons by `slt`. A panic is `none`, or a constructor of its own where the operation can also
-- fail. A function that holds a lock is one step on the state. State is passed on as a record.
--
-- Loops. The loop of AddBlocks takes as fuel the number of blocks to add, and every iteration adds at
-- least one. A read of a log takes one more than the bytes to read, since every iteration reads a byte at
-- least; the loop over the index of a closed log takes one more than its bytes, since every entry has
-- one. An unsigned number of the index has nine bytes at most. The scan of a log takes as fuel one more than its bytes, since every entry that it
-- reads is at least one byte long. The loop of a stack of readers and that of the block map's
-- ReadBlocks take one more than the blocks to read, since every iteration of either reads a block at
-- least; the loop of PushReader takes more than a bound on the blocks of the table, as each of its
-- ranges has a block. In Tracker a call of PushReader goes in parts, a step each, without fuel. Add to a bitmap map takes the length of the range. The other loops run over lists.
--
-- Parameters. Third-party code is a parameter with what the program relies on: the radix tree, the
-- bit sets, the checksum and the protobuf messages (`Codec` in Wal), the file that a log is written to
-- (`LogFile`, with a buffered writer over it) and the one it is read from (`ReaderAt`), the metadata store, the reader and the header message of a table, the block readers and
-- writers below an adaptor.
--
-- Not modelled: Iterate of the bitmap map; Build,
-- NextHole and ReadAt of a table, and BuildFromReader (internal/sparseblock); GetLiveBlocks and
-- ReaderForLiveBytes of the block map, and the two calls of them in tracker/reader.go; the package block of internal,
-- which stands on the parts above; the storage packages, and cmd, which are calls of the file system, the
-- network and the command line; testutil, and generated code. Log messages and buffer pools are left out,
-- and locks too, but that the steps of Util and Tracker are the parts under a lock.
pub mod Prelude
pub mod RangeMap
pub mod SparseBlock
pub mod Util
pub mod Wal
pub mod Readers
pub mod BlockMap
pub mod Adaptor
pub mod Metadata
pub mod Tracker
pub mod App
