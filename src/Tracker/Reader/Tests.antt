-- ===== src/Tracker/Reader/Tests.antt =====
-- A device with a log and a table (internal/tracker/reader.go), and the theorems on it
use logblock.Prelude.{
  ℕ, update, ◌≤◌, ◌≡◌, ◌≢◌, refl, true, false, Option, none, some, List, [], ◌∷◌, arith, ltb, ◌⊎◌,
  inl, ◌<◌,
}
use logblock.Util.WaitBarrier.{start, done, begin_barrier, add_one, new_group}
use logblock.Tracker.Reader.Removal
use logblock.Tracker.Reader.Removal.{
  Reads, ReadReach, no_reads, in_stack, log_pushed, reads, waits, log_removed, read_over,
}
use logblock.Tracker.Reader.Removal.Quiet.{removed_quiet}
use logblock.Adaptor.{BlockHoleReader}
use logblock.Readers.Views.{SoundReader}
use logblock.BlockMap.{
  PushCall, is_member, new_block_map, begin_push, start_push, fetch_or_add_value_index,
}
use logblock.BlockMap.Samples.{numbers, index, sevens_sound}
use logblock.Tracker.Reader.{
  delete_writer, remove_writer, start_read, end_read, merge_pushing, merge_adding,
  push_compacted_reader, Reader, new_reader, build_reader_stack, push_writer, push_reader,
  start_merge, start_compaction, merge_push, reverse,
}
use logblock.Tracker.Reader.History.{
  Event, pushes_writer, pushes_reader, pushes_compacted, compacted_pushed, begins_compaction, other,
  layers, apply, Reach, initial, later, writer_pushed, reader_pushed, merge_started,
  compaction_started,
}
use logblock.Tracker.Reader.Shown.{shown, newest, table_has}
use logblock.Tracker.Reader.Safety.{parts_left, shown-newest, merge_pushes, compaction_alone}

abbrev tables : ℕ → SoundReader 2
tables x = sevens_sound

abbrev readers : ℕ → BlockHoleReader
readers x = sevens_sound.reader

bounded : (x b : ℕ) → 8 ≤ b → (tables x).view b ≡ none
bounded x b above = ground arith

abbrev empty : Reader index numbers
empty = new_reader index numbers 2 8

abbrev pending : Reader index numbers
pending = push_reader index numbers 5 (push_writer index numbers 1 empty)

abbrev history : List Event
history = other ∷ pushes_reader 5 ∷ pushes_writer 1 ∷ []

abbrev merging : Reader index numbers
merging = record pending { merge = merge_pushing (5 ∷ []) (5 ∷ []) }

merging-Reach : Reach index numbers readers 2 8 history merging
unfolding start_merge reverse new_reader build_reader_stack push_reader push_writer is_member layers
    apply
merging-Reach =
    later (later (later initial (writer_pushed 1)) (reader_pushed 5 refl))
      (merge_started merging refl)

abbrev or_else : Option (Reader index numbers) → Reader index numbers → Reader index numbers
or_else none m = m
or_else (some m) m' = m

abbrev one_call : PushCall
one_call = record { table = 5; number = 1; offset = 0; ranges = [] }

-- A table that a compaction pushes, after the first part of the call
abbrev compacting : Reader index numbers
compacting = record empty { compacting = true }

abbrev adding : Reader index numbers
adding = or_else (push_compacted_reader index numbers 5 compacting) compacting

abbrev compactions : List Event
compactions = pushes_compacted 5 ∷ begins_compaction ∷ []

adding-Reach : Reach index numbers readers 2 8 compactions adding
unfolding start_compaction new_reader build_reader_stack push_compacted_reader begin_push start_push
    fetch_or_add_value_index is_member layers apply new_block_map
adding-Reach =
    later (later initial (compaction_started compacting refl))
      (compacted_pushed 5 adding refl refl refl refl)

shown-newest_example :
    (shown index numbers
        (λ w b. ltb b 1)
        (table_has tables)
        adding.primary_index
        adding.reader_stack
        2
      ≡ newest (λ w b. ltb b 1) (table_has tables) (layers compactions) 2)
    ⊎ ((c : PushCall) × (base : List ℕ) × (adding.compaction_push ≡ some c)
        × ((layers compactions).older ≡ c.table ∷ base)
        × (table_has tables c.table 2 ≡ true)
        × (shown index numbers
              (λ w b. ltb b 1)
              (table_has tables)
              adding.primary_index
              adding.reader_stack
              2
            ≡ newest
                (λ w b. ltb b 1)
                (table_has tables)
                (record (layers compactions) { older = base })
                2))
shown-newest_example =
    shown-newest index numbers tables (omega arith) bounded adding-Reach (λ w b. ltb b 1) 2

merge_pushes_example :
    (m' : Reader index numbers) × (merge_push index numbers readers merging ≡ some m')
    × ((m'.merge ≡ merge_pushing [] (5 ∷ []))
        ⊎ ((c : PushCall) × (m'.merge ≡ merge_adding c [] (5 ∷ []))
            × (c.table ≡ 5)
            × (parts_left 8 m'.merge < parts_left 8 merging.merge)))
unfolding new_reader build_reader_stack push_reader push_writer new_block_map
merge_pushes_example =
    merge_pushes index numbers tables (omega arith) bounded merging-Reach 5 [] (5 ∷ [])
      (inl (1, refl, refl))

compaction_alone_example :
    (adding.merge ≢ merge_pushing (5 ∷ []) (5 ∷ []))
    × (adding.merge ≢ merge_adding one_call (5 ∷ []) (5 ∷ []))
unfolding push_compacted_reader begin_push start_push fetch_or_add_value_index new_reader
    new_block_map build_reader_stack is_member
compaction_alone_example =
    compaction_alone index numbers tables (omega arith) bounded adding-Reach refl one_call (5 ∷ [])
      (5 ∷ [])

-- A read of a log that is removed, another read, and the end of the first
abbrev one_log : Reads index numbers readers
one_log = record (no_reads index numbers readers 2 8) {
  reader = push_writer index numbers 0 empty;
  next_log = 1;
}

abbrev one_read : Reads index numbers readers
one_read = record one_log {
  reader = (start_read index numbers one_log.reader).2;
  started = 1;
  active = update one_log.active 0 (some (start_read index numbers one_log.reader).1);
  stacks = update one_log.stacks 0 (start_read index numbers one_log.reader).0;
}

abbrev no_log_left : Reads index numbers readers
no_log_left = record one_read {
  reader = (remove_writer index numbers 0 one_read.reader).1;
  waiting = update one_read.waiting 0 (some (1, 1));
  removed = update one_read.removed 0 (some 0);
}

abbrev two_reads : Reads index numbers readers
two_reads = record no_log_left {
  reader = (start_read index numbers no_log_left.reader).2;
  started = 2;
  active = update no_log_left.active 1 (some (start_read index numbers no_log_left.reader).1);
  stacks = update no_log_left.stacks 1 (start_read index numbers no_log_left.reader).0;
}

abbrev read_done : Reads index numbers readers
read_done = record two_reads {
  reader = or_else (end_read index numbers 0 two_reads.reader) two_reads.reader;
  active = update two_reads.active 0 none;
}

read_done-ReadReach : ReadReach index numbers readers 2 8 read_done
unfolding new_reader build_reader_stack push_writer start_read remove_writer delete_writer end_read
    start begin_barrier done add_one new_group
read_done-ReadReach =
    Removal.later
      (Removal.later
        (Removal.later (Removal.later (Removal.later Removal.initial log_pushed) reads)
          (waits no_log_left.reader (some 0) 0 1 (log_removed 0 [] refl refl) refl))
        reads)
      (read_over 0 0 read_done.reader refl refl)

removed_quiet_example :
    (in_stack 0 read_done.reader.reader_stack ≡ false)
    × ((i h : ℕ) → read_done.active i ≡ some h → in_stack 0 (read_done.stacks i) ≡ false)
unfolding new_reader build_reader_stack push_writer start_read remove_writer delete_writer end_read
    start begin_barrier done add_one new_group
removed_quiet_example =
    removed_quiet index numbers readers 0 1 1 0 read_done-ReadReach refl refl refl
