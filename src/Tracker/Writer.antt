-- ===== src/Tracker/Writer.antt =====
-- internal/tracker/writer.go. A log is known by a number (its pointer). A part under the locks is one step, and so
-- is what comes after a wait; the wait barriers are those of Util/WaitBarrier. Counts of bytes are below 2^63.
pub mod Logs
pub mod Writes
pub mod Replaced
mod Tests
use logblock.Prelude.{
  ℕ, ◌+◌, ◌*◌, ◌≡◌, Bool, true, false, ◌||◌, Option, none, some, List, [], ◌∷◌, ◌++◌, if◌then◌else◌,
  ltb, ◌==◌,
}
use logblock.Util.WaitBarrier.{WaitBarrier, new_barrier, start, done, begin_barrier}

-- `Writer`
pub record Writer : Type 0 where
  pub block_size : ℕ
  pub active_writer : Option ℕ
  pub active_wb : WaitBarrier
  pub write_count : ℕ
  pub pending_writers : List ℕ
  pub pending_wb : WaitBarrier

-- `NewWriter`
abbrev pub new_writer : ℕ → Writer
new_writer block_size = record {
  block_size = block_size;
  active_writer = none;
  active_wb = new_barrier;
  write_count = 0;
  pending_writers = [];
  pending_wb = new_barrier;
}

-- `PushPending`
unfoldable pub push_pending : ℕ → Writer → Writer
push_pending wl m = record m { pending_writers = m.pending_writers ++ wl ∷ [] }

-- The inner loop of `RemovePending`
unfoldable pub delete_writer : ℕ → List ℕ → List ℕ
delete_writer x [] = []
delete_writer x (y ∷ ys) = if x == y then ys else y ∷ delete_writer x ys

-- The outer loop
unfoldable pub delete_writers : List ℕ → List ℕ → List ℕ
delete_writers [] ws = ws
delete_writers (x ∷ xs) ws = delete_writers xs (delete_writer x ws)

-- `RemovePending` up to the wait of its barrier, with the groups of the barrier
unfoldable pub remove_pending : List ℕ → Writer → Option (ℕ × ℕ) × Writer
remove_pending p m =
    let b = begin_barrier m.pending_wb in
    (b.0, record m { pending_writers = delete_writers p m.pending_writers; pending_wb = b.1 })

-- What `PushNewLog` has at its barrier: the old log, the context that is done when that is closed, the groups of
-- the barrier, and the state.
pub record NewLog : Type 0 where
  pub old_writer : Option ℕ
  pub close_context : Option ℕ
  pub groups : Option (ℕ × ℕ)
  pub writer : Writer

-- `PushNewLog` up to the wait of its barrier
unfoldable pub push_new_log : ℕ → Writer → NewLog
push_new_log wl m = elim m.active_writer [
  | none ↦ record {
    old_writer = none;
    close_context = none;
    groups = none;
    writer = record m { active_writer = some wl };
  }
  | some old ↦
      let c = start m.pending_wb in
      let b = begin_barrier m.active_wb in
      record {
        old_writer = some old;
        close_context = some c.0;
        groups = b.0;
        writer = record m {
          active_writer = some wl;
          pending_writers = m.pending_writers ++ old ∷ [];
          pending_wb = c.1;
          active_wb = b.1;
        };
      }
]

-- After the wait
abbrev pub reset_count : Writer → Writer
reset_count m = record m { write_count = 0 }

-- When CloseWriter of the old log is over; `none` is a panic.
unfoldable pub close_done : ℕ → Writer → Option Writer
close_done g m = elim (done g m.pending_wb) [
  | none ↦ none
  | some b ↦ some (record m { pending_wb = b })
]

-- `WriteBlocks` under the lock: the log that it writes to, and its context
unfoldable pub start_write : Writer → Option ℕ × ℕ × Writer
start_write m = let c = start m.active_wb in (m.active_writer, c.0, record m { active_wb = c.1 })

-- The rest of `WriteBlocks`, after the log has written `n` blocks; without a log, `n` is 0.
unfoldable pub end_write : ℕ → ℕ → Writer → Option Writer
end_write n g m = elim (done g m.active_wb) [
  | none ↦ none
  | some b ↦ some (record m {
    write_count = if ltb 0 n then m.write_count + n * m.block_size else m.write_count;
    active_wb = b;
  })
]

unfoldable pub to_list : Option ℕ → List ℕ
to_list none = []
to_list (some x) = x ∷ []

-- What `Flush` has when it starts to flush: the logs, its contexts, and the state
pub record FlushStart : Type 0 where
  pub flush_writers : List ℕ
  pub pending_context : ℕ
  pub active_context : Option ℕ
  pub writer : Writer

-- `Flush` under the locks
unfoldable pub start_flush : Writer → FlushStart
start_flush m =
    let c = start m.pending_wb in
    let a = start m.active_wb in
    elim m.active_writer [
      | none ↦ record {
        flush_writers = m.pending_writers;
        pending_context = c.0;
        active_context = none;
        writer = record m { pending_wb = c.1 };
      }
      | some w ↦ record {
        flush_writers = m.pending_writers ++ w ∷ [];
        pending_context = c.0;
        active_context = some a.0;
        writer = record m { pending_wb = c.1; active_wb = a.1 };
      }
    ]

-- The deferred calls at the end of `Flush`; `none` is a panic.
unfoldable pub end_flush : Option ℕ → ℕ → Writer → Option Writer
end_flush active pending m =
    let flushed : WaitBarrier → Option Writer = λ a. elim (done pending m.pending_wb) [
      | none ↦ none
      | some p ↦ some (record m { pending_wb = p; active_wb = a })
    ] in
    elim active [
      | none ↦ flushed m.active_wb
      | some g ↦ elim (done g m.active_wb) [ none ↦ none | some a ↦ flushed a ]
    ]

-- `Close` up to the wait of its first barrier, which it begins
unfoldable pub start_close : Writer → Option (ℕ × ℕ) × Writer
start_close m =
    let b = begin_barrier m.active_wb in
    (
      b.0,
      elim m.active_writer [
        | none ↦ record m { active_wb = b.1 }
        | some old ↦ record m {
          active_writer = none;
          write_count = 0;
          pending_writers = m.pending_writers ++ old ∷ [];
          active_wb = b.1;
        }
      ],
    )

-- The second barrier of `Close`, up to its wait
unfoldable pub wait_flushes : Writer → Option (ℕ × ℕ) × Writer
wait_flushes m = let b = begin_barrier m.pending_wb in (b.0, record m { pending_wb = b.1 })

-- The loop of `Close`: the logs to which nothing was written
unfoldable pub empty_logs : (ℕ → ℕ) → List ℕ → List ℕ
empty_logs written [] = []
empty_logs written (w ∷ ws) =
    let rest = empty_logs written ws in if written w == 0 then w ∷ rest else rest

-- What an operation does with logs
pub data Event : Type 0 where
  pushes : ℕ → Event
  removes : List ℕ → Event
  other : Event

-- The parts of the operations, in any order
pub data Step (m : Writer) : Event → Writer → Type 0 where
  pending : (wl : ℕ) → Step m (pushes wl) (push_pending wl m)
  new_log : (wl : ℕ) → Step m (pushes wl) (push_new_log wl m).writer
  resets : Step m other (reset_count m)
  closes : (g : ℕ) (m' : Writer) → close_done g m ≡ some m' → Step m other m'
  removed : (p : List ℕ) → Step m (removes p) (remove_pending p m).1
  starts_write : Step m other (start_write m).2
  ends_write : (n g : ℕ) (m' : Writer) → end_write n g m ≡ some m' → Step m other m'
  starts_flush : Step m other (start_flush m).writer
  ends_flush : (a : Option ℕ) (g : ℕ) (m' : Writer) → end_flush a g m ≡ some m' → Step m other m'
  starts_close : Step m other (start_close m).1
  waits_flushes : Step m other (wait_flushes m).1

-- The states with what has been done, the latest first
pub data Reach (block_size : ℕ) : List Event → Writer → Type 0 where
  initial : Reach block_size [] (new_writer block_size)
  later :
      {es : List Event} {e : Event} {m m' : Writer}
      → Reach block_size es m
      → Step m e m'
      → Reach block_size (e ∷ es) m'
