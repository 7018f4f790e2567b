-- ===== src/Tracker/Writer/Tests.antt =====
-- A log that is replaced by another, and a Flush or the end of a write then.
use logblock.Prelude.{ℕ, update, ◌≡◌, ◌≢◌, refl, true, false, Option, none, some, [], ◌∷◌}
use logblock.Util.WaitBarrier.{start, begin_barrier, done, add_one, new_group}
use logblock.Tracker.Writer.{
  Writer, new_writer, push_new_log, start_write, end_write, start_flush, pushes, new_log, Reach,
  initial, later,
}
use logblock.Tracker.Writer.Logs.{is_log, was_pushed, was_removed, flush_writers-start_flush}
use logblock.Tracker.Writer.Replaced.{old_log_quiet}
use logblock.Tracker.Writer.Writes
use logblock.Tracker.Writer.Writes.{no_writes, WriteReach, writes, written, replaces, waits}

abbrev replaced : Writer
replaced = (push_new_log 2 (push_new_log 1 (new_writer 512)).writer).writer

replaced-Reach : Reach 512 (pushes 2 ∷ pushes 1 ∷ []) replaced
replaced-Reach = later (later initial (new_log 1)) (new_log 2)

flush_writers-start_flush_example :
    (was_pushed 1 (pushes 2 ∷ pushes 1 ∷ []) ≡ true
      → was_removed 1 (pushes 2 ∷ pushes 1 ∷ []) ≡ false
      → is_log 1 (start_flush replaced).flush_writers ≡ true)
    × (is_log 1 (start_flush replaced).flush_writers ≡ true
        → was_pushed 1 (pushes 2 ∷ pushes 1 ∷ []) ≡ true)
flush_writers-start_flush_example = flush_writers-start_flush 1 replaced-Reach

-- A write to log 0, its replacement by log 1, a write to that, and the end of the first write
abbrev first_push : Writes.Writes
first_push = record (no_writes 512) {
  writer = (push_new_log 0 (new_writer 512)).writer;
  next_log = 1;
}

abbrev first_write : Writes.Writes
first_write = record first_push {
  writer = (start_write first_push.writer).2;
  started = 1;
  active = update first_push.active 0 (some (start_write first_push.writer).1);
  logs = update first_push.logs 0 first_push.writer.active_writer;
}

abbrev second_push : Writes.Writes
second_push = record first_write {
  writer = (push_new_log 1 first_write.writer).writer;
  next_log = 2;
  waiting = update first_write.waiting 0 (some (1, 1));
  old_logs = update first_write.old_logs 0 0;
}

abbrev second_write : Writes.Writes
second_write = record second_push {
  writer = (start_write second_push.writer).2;
  started = 2;
  active = update second_push.active 1 (some (start_write second_push.writer).1);
  logs = update second_push.logs 1 second_push.writer.active_writer;
}

abbrev or_else : Option Writer → Writer → Writer
or_else none m = m
or_else (some m) m' = m

abbrev first_over : Writes.Writes
first_over = record second_write {
  writer = or_else (end_write 3 0 second_write.writer) second_write.writer;
  active = update second_write.active 0 none;
}

first_over-WriteReach : WriteReach 512 first_over
unfolding push_new_log start_write end_write start begin_barrier done add_one new_group
first_over-WriteReach =
    Writes.later
      (Writes.later
        (Writes.later (Writes.later (Writes.later Writes.initial (replaces refl)) writes)
          (waits 0 0 1 refl refl))
        writes)
      (written 3 0 0 first_over.writer refl refl)

old_log_quiet_example :
    (first_over.writer.active_writer ≢ some 0)
    × ((i h : ℕ) → first_over.active i ≡ some h → first_over.logs i ≢ some 0)
unfolding push_new_log start_write end_write start begin_barrier done add_one new_group
old_log_quiet_example = old_log_quiet 0 1 1 first_over-WriteReach refl refl
