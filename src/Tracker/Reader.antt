-- ===== src/Tracker/Reader.antt =====
-- internal/tracker/reader.go. A reader is known by a number (its pointer), and `tables` are those of sparse tables. A
-- part under the lock, a part of a call on the block map, which has a lock of its own, and what comes after a wait are
-- each one step; a wait on the condition variable is the test that it waits for. The numbers that the
-- block map gives to tables are those of BlockMap.
pub mod History
pub mod Names
pub mod Pushes
pub mod Invariant
pub mod Compaction
pub mod Steps
pub mod Shown
pub mod Between
pub mod State
pub mod Calls
pub mod Sound
pub mod Safety
pub mod Removal
mod Tests
use logblock.Prelude.{
  ℕ, suc, ◌≡◌, ◌≢◌, Bool, true, false, not, ◌&&◌, ◌||◌, Option, none, some, List, [], ◌∷◌, ◌++◌,
  if◌then◌else◌, ltb, ◌==◌, map, length,
}
use logblock.Adaptor.{BlockHoleReader}
use logblock.RangeMap.Index.{RangeIndex}
use logblock.BlockMap
use logblock.BlockMap.{FreeSet, BlockMap, PushCall, begin_push, continue_push, is_member}
use logblock.Util.WaitBarrier.{WaitBarrier, new_barrier, start, done, begin_barrier}

-- What a stack of readers is made of
pub data Layer : Type 0 where
  writer_layer : ℕ → Layer
  reader_layer : ℕ → Layer
  primary_layer : Layer

-- `slices.Reverse`
unfoldable pub reverse : List ℕ → List ℕ
reverse [] = []
reverse (x ∷ xs) = reverse xs ++ x ∷ []

-- `slices.DeleteFunc` of what is in `rs`
unfoldable pub delete_merged : List ℕ → List ℕ → List ℕ
delete_merged rs [] = []
delete_merged rs (x ∷ xs) =
    let rest = delete_merged rs xs in if is_member x rs then rest else x ∷ rest

-- The loop of `RemoveWriter`; `none` is a writer that is not found.
unfoldable pub delete_writer : ℕ → List ℕ → Option (List ℕ)
delete_writer w [] = none
delete_writer w (x ∷ xs) =
    let rest = delete_writer w xs in
    if x == w then some xs else elim rest [ none ↦ none | some ys ↦ some (x ∷ ys) ]

-- Where `readerMergeLoop` is: at its test, at the call of PushReader for the first of the readers left of
-- those that it merges, in such a call, or at the wait at the end
pub data Merge : Type 0 where
  merge_idle : Merge
  merge_pushing : List ℕ → List ℕ → Merge
  merge_adding : PushCall → List ℕ → List ℕ → Merge
  merge_waiting : Option (ℕ × ℕ) → Merge

-- After a part of a call of PushReader: the call goes on, or it is the turn of the next.
unfoldable pub after_part : List ℕ → List ℕ → Option PushCall → Merge
after_part rest rs none = merge_pushing rest rs
after_part rest rs (some c) = merge_adding c rest rs

module _ (I : RangeIndex) (F : FreeSet) where
  -- `Reader`, with whether `compactionState` is not nil, and where the goroutine of NewReader is
  pub record Reader : Type 0 where
    pub block_size : ℕ
    pub num_blocks : ℕ
    pub reader_stack : List Layer
    pub wb : WaitBarrier
    pub primary_index : BlockMap I F
    pub pending_readers : List ℕ
    pub writers : List ℕ
    pub compacting : Bool
    pub compaction_push : Option PushCall
    pub merge : Merge

  unfoldable pub build_reader_stack : Reader → Reader
  build_reader_stack m = record m {
    reader_stack =
        map writer_layer m.writers ++ (map reader_layer m.pending_readers ++ primary_layer ∷ []);
  }

  -- `NewReader`
  unfoldable pub new_reader : ℕ → ℕ → Reader
  new_reader block_size num_blocks = build_reader_stack (record {
    block_size = block_size;
    num_blocks = num_blocks;
    reader_stack = [];
    wb = new_barrier;
    primary_index = BlockMap.new_block_map I F block_size num_blocks;
    pending_readers = [];
    writers = [];
    compacting = false;
    compaction_push = none;
    merge = merge_idle;
  })

  -- `readerMergeLoop` from its test to the first call of PushReader; `none` waits on.
  unfoldable pub start_merge : Reader → Option Reader
  start_merge m =
      let rs = reverse m.pending_readers in
      let started : Option Reader =
        if length m.pending_readers == 0 || m.compacting
        then none
        else some (record m { merge = merge_pushing rs rs }) in
      elim m.merge [
        | merge_idle ↦ started
        | merge_waiting g ↦ none
        | merge_pushing todo rs' ↦ none
        | merge_adding c rest rs' ↦ none
      ]

  -- The next part of a call of PushReader; `none` is a panic, or that it is not the call's turn.
  unfoldable pub merge_push : (ℕ → BlockHoleReader) → Reader → Option Reader
  merge_push tables m = elim m.merge [
    | merge_idle ↦ none
    | merge_waiting g ↦ none
    | merge_pushing todo rs ↦ elim todo [
      | [] ↦ none
      | br ∷ rest ↦ elim (begin_push I F br m.primary_index) [
        | none ↦ none
        | some (c, p) ↦ some (record m { primary_index = p; merge = merge_adding c rest rs })
      ]
    ]
    | merge_adding c rest rs ↦ elim (continue_push I F (tables c.table) c m.primary_index) [
      | none ↦ none
      | some (o, p) ↦ some (record m { primary_index = p; merge = after_part rest rs o })
    ]
  ]

  -- From the end of the calls to the wait
  unfoldable pub end_merge : Reader → Option Reader
  end_merge m = elim m.merge [
    | merge_idle ↦ none
    | merge_waiting g ↦ none
    | merge_adding c rest rs ↦ none
    | merge_pushing todo rs ↦ elim todo [
      | br ∷ rest ↦ none
      | [] ↦
          let b = begin_barrier m.wb in
          some (
            build_reader_stack (record m {
              pending_readers = delete_merged rs m.pending_readers;
              wb = b.1;
              merge = merge_waiting b.0;
            }))
    ]
  ]

  -- After the wait
  unfoldable pub merge_again : Reader → Option Reader
  merge_again m = elim m.merge [
    | merge_idle ↦ none
    | merge_waiting g ↦ some (record m { merge = merge_idle })
    | merge_pushing todo rs ↦ none
    | merge_adding c rest rs ↦ none
  ]

  unfoldable pub push_writer : ℕ → Reader → Reader
  push_writer w m = build_reader_stack (record m { writers = w ∷ m.writers })

  -- `RemoveWriter` up to its wait, with the groups of the barrier
  unfoldable pub remove_writer : ℕ → Reader → Option (ℕ × ℕ) × Reader
  remove_writer w m = elim (delete_writer w m.writers) [
    | none ↦ (none, m)
    | some ws ↦
        let b = begin_barrier m.wb in
        (b.0, build_reader_stack (record m { writers = ws; wb = b.1 }))
  ]

  -- `PushReader`
  unfoldable pub push_reader : ℕ → Reader → Reader
  push_reader r m = build_reader_stack (record m { pending_readers = r ∷ m.pending_readers })

  -- `ReadBlocks` under the lock: the stack that it reads from, and its context
  unfoldable pub start_read : Reader → List Layer × ℕ × Reader
  start_read m = let c = start m.wb in (m.reader_stack, c.0, record m { wb = c.1 })

  -- The deferred call of `ReadBlocks`; `none` is a panic.
  unfoldable pub end_read : ℕ → Reader → Option Reader
  end_read g m = elim (done g m.wb) [ none ↦ none | some b ↦ some (record m { wb = b }) ]

  -- `StartCompaction`; `none` is a nil result, and also a wait for readers that are pending.
  unfoldable pub start_compaction : Reader → Option Reader
  start_compaction m =
      if m.compacting
      then none
      else if ltb 0 (length m.pending_readers)
      then none
      else some (record m { compacting = true })

  -- The methods of `CompactionState`. `ListReaders`
  unfoldable pub list_readers : Reader → List ℕ
  list_readers m = BlockMap.list_readers I F m.primary_index

  -- `Reader`
  unfoldable pub compaction_reader : Reader → BlockMap I F
  compaction_reader m = m.primary_index

  -- `PushCompactedReader` up to the end of the first part of its call; `none` is a panic.
  unfoldable pub push_compacted_reader : ℕ → Reader → Option Reader
  push_compacted_reader br m = elim (begin_push I F br m.primary_index) [
    | none ↦ none
    | some (c, p) ↦ some (record m { primary_index = p; compaction_push = some c })
  ]

  -- The next part of that call; `none` is a panic, or that there is none.
  unfoldable pub compacted_push : (ℕ → BlockHoleReader) → Reader → Option Reader
  compacted_push tables m = elim m.compaction_push [
    | none ↦ none
    | some c ↦ elim (continue_push I F (tables c.table) c m.primary_index) [
      | none ↦ none
      | some (o, p) ↦ some (record m { primary_index = p; compaction_push = o })
    ]
  ]

  -- `RemoveUnusedReader` up to the wait of its barrier
  unfoldable pub wait_unused : Reader → Option (ℕ × ℕ) × Reader
  wait_unused m = let b = begin_barrier m.wb in (b.0, record m { wb = b.1 })

  -- The rest of it; `none` is a panic.
  unfoldable pub remove_unused : ℕ → Reader → Option Reader
  remove_unused br m = elim (BlockMap.remove_table I F br m.primary_index) [
    | none ↦ none
    | some p ↦ some (record m { primary_index = p })
  ]

  -- `Done`
  unfoldable pub compaction_done : Reader → Reader
  compaction_done m = record m { compacting = false }
