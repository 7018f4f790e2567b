-- ===== src/Tracker/Reader/History.antt =====
-- The steps of internal/tracker/reader.go, and what they do for those who read
use logblock.Prelude.{ℕ, ◌≡◌, ◌≢◌, true, false, Option, none, some, List, [], ◌∷◌, ◌++◌}
use logblock.Adaptor.{BlockHoleReader}
use logblock.RangeMap.Index.{RangeIndex}
use logblock.BlockMap.{FreeSet, is_member}
use logblock.Tracker.Reader.{
  Reader, new_reader, start_merge, merge_push, end_merge, merge_again, push_writer, remove_writer,
  push_reader, start_read, end_read, start_compaction, push_compacted_reader, compacted_push,
  wait_unused, remove_unused, compaction_done, delete_writer,
}

-- What a step does for those who read
pub data Event : Type 0 where
  pushes_writer removes_writer pushes_reader pushes_compacted : ℕ → Event
  begins_compaction other : Event

-- What the device is made of, newest first: write logs, tables that were pushed since the last compaction began,
-- and older tables
pub record Layers : Type 0 where
  pub logs : List ℕ
  pub recent : List ℕ
  pub older : List ℕ

abbrev or_else : List ℕ → Option (List ℕ) → List ℕ
or_else xs none = xs
or_else xs (some ys) = ys

-- What an event makes of the layers: a table is pushed onto the recent ones, a compacted one below them.
unfoldable pub apply : Event → Layers → Layers
apply (pushes_writer w) d = record d { logs = w ∷ d.logs }
apply (removes_writer w) d = record d { logs = or_else d.logs (delete_writer w d.logs) }
apply (pushes_reader r) d = record d { recent = r ∷ d.recent }
apply (pushes_compacted r) d = record d { older = r ∷ d.older }
apply begins_compaction d = record d { recent = []; older = d.recent ++ d.older }
apply other d = d

unfoldable pub layers : List Event → Layers
layers [] = record { logs = []; recent = []; older = [] }
layers (e ∷ es) = apply e (layers es)

-- A table that has not been pushed yet
abbrev pub IsNew : List Event → ℕ → Type 0
IsNew es r = is_member r ((layers es).recent ++ (layers es).older) ≡ false

module _ (I : RangeIndex) (F : FreeSet) (tables : ℕ → BlockHoleReader) where
  -- The steps of the operations and of the goroutine, in any order. Those who push a table push it once, those who
  -- compact hold the state that StartCompaction gave them, and remove tables that no block is found in, one call after
  -- the other.
  pub data Step (es : List Event) (m : Reader I F) : Event → Reader I F → Type 0 where
    writer_pushed : (w : ℕ) → Step es m (pushes_writer w) (push_writer I F w m)
    writer_removed : (w : ℕ) → Step es m (removes_writer w) (remove_writer I F w m).1
    reader_pushed : (r : ℕ) → IsNew es r → Step es m (pushes_reader r) (push_reader I F r m)
    merge_started : (m' : Reader I F) → start_merge I F m ≡ some m' → Step es m other m'
    merge_pushed : (m' : Reader I F) → merge_push I F tables m ≡ some m' → Step es m other m'
    merge_ended : (m' : Reader I F) → end_merge I F m ≡ some m' → Step es m other m'
    merge_over : (m' : Reader I F) → merge_again I F m ≡ some m' → Step es m other m'
    read_started : Step es m other (start_read I F m).2
    read_ended : (g : ℕ) (m' : Reader I F) → end_read I F g m ≡ some m' → Step es m other m'
    compaction_started :
        (m' : Reader I F) → start_compaction I F m ≡ some m' → Step es m begins_compaction m'
    compacted_pushed :
        (r : ℕ) (m' : Reader I F)
        → m.compacting ≡ true
        → m.compaction_push ≡ none
        → IsNew es r
        → push_compacted_reader I F r m ≡ some m'
        → Step es m (pushes_compacted r) m'
    compacted_added : (m' : Reader I F) → compacted_push I F tables m ≡ some m' → Step es m other m'
    unused_waits : m.compacting ≡ true → Step es m other (wait_unused I F m).1
    unused_removed :
        (r iv : ℕ) (m' : Reader I F)
        → m.compacting ≡ true
        → m.compaction_push ≡ none
        → m.primary_index.index_map r ≡ some iv
        → ((b : ℕ) → I.get m.primary_index.range_map b ≢ some iv)
        → remove_unused I F r m ≡ some m'
        → Step es m other m'
    compaction_ended :
        m.compacting ≡ true → m.compaction_push ≡ none → Step es m other (compaction_done I F m)

  -- The states with what has been done, the latest first
  pub data Reach (block_size num_blocks : ℕ) : List Event → Reader I F → Type 0 where
    initial : Reach block_size num_blocks [] (new_reader I F block_size num_blocks)
    later :
        {es : List Event} {e : Event} {m m' : Reader I F}
        → Reach block_size num_blocks es m
        → Step es m e m'
        → Reach block_size num_blocks (e ∷ es) m'
