-- ===== src/Tracker/Reader/Removal.antt =====
-- Reads in progress while `RemoveWriter` of internal/tracker/reader.go waits. Logs are numbered in the order in which
-- they are pushed, and contexts in the order in which they start.
pub mod Logs
pub mod Parts
pub mod Quiet
use logblock.Prelude.{
  ℕ, update, ◌+◌, ◌≤◌, ◌<◌, ◌≡◌, ◌≢◌, refl, sym, ap, ◌∙◌, subst, inl, inr, Bool, true, false, ◌||◌,
  Option, none, some, List, [], ◌∷◌, ◌++◌, arith, if◌then◌else◌, ◌==◌, map, Bool-cases,
  Option-cases,
}
use logblock.Adaptor.{BlockHoleReader}
use logblock.RangeMap.Index.{RangeIndex}
use logblock.BlockMap.{FreeSet}
use logblock.Util.WaitBarrier
use logblock.Util.WaitBarrier.{start, done, begin_barrier}
use logblock.Util.WaitBarrier.Safety.{barrier_waits}
use logblock.Tracker.Writer.Writes.{begin_none}
use logblock.Tracker.Reader.{
  Layer, writer_layer, reader_layer, primary_layer, Reader, new_reader, build_reader_stack,
  delete_writer, push_writer, remove_writer, push_reader, start_read, end_read, wait_unused,
  start_merge, merge_push, merge_again, end_merge, start_compaction, push_compacted_reader,
  compacted_push, remove_unused, compaction_done,
}
use logblock.Tracker.Reader.Steps.{
  start_merge_lem, merge_push_lem, end_merge_lem, merge_again_lem, start_compaction_lem,
  push_compacted_reader_lem, remove_unused_lem, end_read_lem,
}

-- Whether a log is in a stack
unfoldable pub in_stack : ℕ → List Layer → Bool
in_stack w [] = false
in_stack w (writer_layer x ∷ ls) = w == x || in_stack w ls
in_stack w (reader_layer x ∷ ls) = in_stack w ls
in_stack w (primary_layer ∷ ls) = in_stack w ls

module _ (I : RangeIndex) (F : FreeSet) (tables : ℕ → BlockHoleReader) where
  -- A Reader with the groups of the reads in progress and the stacks that they read from, and by the group that it waits
  -- for, each call of a barrier: the group of the barrier, the number of contexts before it, and the log if
  -- it is a call of RemoveWriter
  pub record Reads : Type 0 where
    pub reader : Reader I F
    pub next_log : ℕ
    pub started : ℕ
    pub active : ℕ → Option ℕ
    pub stacks : ℕ → List Layer
    pub waiting : ℕ → Option (ℕ × ℕ)
    pub removed : ℕ → Option ℕ

  abbrev pub no_reads : ℕ → ℕ → Reads
  no_reads block_size num_blocks = record {
    reader = new_reader I F block_size num_blocks;
    next_log = 0;
    started = 0;
    active = λ i. none;
    stacks = λ i. [];
    waiting = λ g. none;
    removed = λ g. none;
  }

  -- What happens to tables without a barrier that waits
  pub data TableStep (m m' : Reader I F) : Type 0 where
    table_pushed : (r : ℕ) → push_reader I F r m ≡ m' → TableStep m m'
    merge_started : start_merge I F m ≡ some m' → TableStep m m'
    merge_pushed : merge_push I F tables m ≡ some m' → TableStep m m'
    merge_over : merge_again I F m ≡ some m' → TableStep m m'
    compaction_started : start_compaction I F m ≡ some m' → TableStep m m'
    compacted_pushed : (r : ℕ) → push_compacted_reader I F r m ≡ some m' → TableStep m m'
    compacted_added : compacted_push I F tables m ≡ some m' → TableStep m m'
    unused_removed : (r : ℕ) → remove_unused I F r m ≡ some m' → TableStep m m'
    compaction_ended : compaction_done I F m ≡ m' → TableStep m m'

  -- What has a barrier: the result and the groups to wait for
  pub data BarrierStep (m : Reader I F) (m' : Reader I F) : Option ℕ → Type 0 where
    merge_ended : end_merge I F m ≡ some m' → BarrierStep m m' none
    unused_waits : (wait_unused I F m).1 ≡ m' → BarrierStep m m' none
    log_removed :
        (l : ℕ) (ws : List ℕ)
        → delete_writer l m.writers ≡ some ws
        → (remove_writer I F l m).1 ≡ m'
        → BarrierStep m m' (some l)

  pub data ReadStep (w : Reads) : Reads → Type 0 where
    reads : ReadStep w (record w {
      reader = (start_read I F w.reader).2;
      started = w.started + 1;
      active = update w.active w.started (some (start_read I F w.reader).1);
      stacks = update w.stacks w.started (start_read I F w.reader).0;
    })
    read_over :
        (i g : ℕ) (m : Reader I F)
        → w.active i ≡ some g
        → end_read I F g w.reader ≡ some m
        → ReadStep w (record w { reader = m; active = update w.active i none })
    log_pushed :
        ReadStep w
          (record w { reader = push_writer I F w.next_log w.reader; next_log = w.next_log + 1 })
    tables_change : (m : Reader I F) → TableStep w.reader m → ReadStep w (record w { reader = m })
    -- A barrier without a group to wait for
    passes :
        (m : Reader I F) (l : Option ℕ)
        → BarrierStep w.reader m l
        → (begin_barrier w.reader.wb).0 ≡ none
        → ReadStep w (record w { reader = m })
    waits :
        (m : Reader I F) (l : Option ℕ) (g own : ℕ)
        → BarrierStep w.reader m l
        → (begin_barrier w.reader.wb).0 ≡ some (g, own)
        → ReadStep w (record w {
          reader = m;
          waiting = update w.waiting g (some (own, w.started));
          removed = update w.removed g l;
        })
    returns :
        (g own at : ℕ) (b : WaitBarrier.WaitBarrier)
        → w.waiting g ≡ some (own, at)
        → w.reader.wb.counts g ≡ 0
        → done own w.reader.wb ≡ some b
        → ReadStep w
            (record w { reader = record w.reader { wb = b }; waiting = update w.waiting g none })

  pub data ReadReach (block_size num_blocks : ℕ) : Reads → Type 0 where
    initial : ReadReach block_size num_blocks (no_reads block_size num_blocks)
    later :
        {w w' : Reads}
        → ReadReach block_size num_blocks w
        → ReadStep w w'
        → ReadReach block_size num_blocks w'

  abbrev pub users : Reads → WaitBarrier.System
  users w = record {
    barrier = w.reader.wb;
    started = w.started;
    active = w.active;
    waiting = w.waiting;
  }
