-- ===== src/Tracker/Writer/Writes.antt =====
-- Writes in progress while `PushNewLog` of internal/tracker/writer.go replaces the active log. Logs are numbered in
-- the order in which they are pushed, and contexts in the order in which they start.
use logblock.Prelude.{
  ℕ, update, ◌+◌, ◌≡◌, refl, sym, ap, ◌∙◌, subst, inl, inr, Option, none, some, arith, Option-cases,
}
use logblock.Util.WaitBarrier
use logblock.Util.WaitBarrier.{start, done, begin_barrier}
use logblock.Tracker.Writer.{Writer, new_writer, push_new_log, start_write, end_write}

-- A Writer with the groups of the writes in progress and the logs that they write to, and by the group that it waits
-- for, each call of PushNewLog: the group of its barrier, the number of contexts before it, and the old log
pub record Writes : Type 0 where
  pub writer : Writer
  pub next_log : ℕ
  pub started : ℕ
  pub active : ℕ → Option ℕ
  pub logs : ℕ → Option ℕ
  pub waiting : ℕ → Option (ℕ × ℕ)
  pub old_logs : ℕ → ℕ

abbrev pub no_writes : ℕ → Writes
no_writes block_size = record {
  writer = new_writer block_size;
  next_log = 0;
  started = 0;
  active = λ i. none;
  logs = λ i. none;
  waiting = λ g. none;
  old_logs = λ g. 0;
}

pub data WriteStep (w : Writes) : Writes → Type 0 where
  writes : WriteStep w (record w {
    writer = (start_write w.writer).2;
    started = w.started + 1;
    active = update w.active w.started (some (start_write w.writer).1);
    logs = update w.logs w.started w.writer.active_writer;
  })
  written :
      (n i g : ℕ) (m : Writer)
      → w.active i ≡ some g
      → end_write n g w.writer ≡ some m
      → WriteStep w (record w { writer = m; active = update w.active i none })
  -- PushNewLog without an old log, or without a group to wait for
  replaces :
      (push_new_log w.next_log w.writer).groups ≡ none
      → WriteStep w (record w {
        writer = (push_new_log w.next_log w.writer).writer;
        next_log = w.next_log + 1;
      })
  waits :
      (old g own : ℕ)
      → w.writer.active_writer ≡ some old
      → (push_new_log w.next_log w.writer).groups ≡ some (g, own)
      → WriteStep w (record w {
        writer = (push_new_log w.next_log w.writer).writer;
        next_log = w.next_log + 1;
        waiting = update w.waiting g (some (own, w.started));
        old_logs = update w.old_logs g old;
      })
  returns :
      (g own at : ℕ) (b : WaitBarrier.WaitBarrier)
      → w.waiting g ≡ some (own, at)
      → w.writer.active_wb.counts g ≡ 0
      → done own w.writer.active_wb ≡ some b
      → WriteStep w (record w {
        writer = record w.writer { active_wb = b; write_count = 0 };
        waiting = update w.waiting g none;
      })

pub data WriteReach (block_size : ℕ) : Writes → Type 0 where
  initial : WriteReach block_size (no_writes block_size)
  later : {w w' : Writes} → WriteReach block_size w → WriteStep w w' → WriteReach block_size w'

-- The use of the barrier of the active log
abbrev pub users : Writes → WaitBarrier.System
users w = record {
  barrier = w.writer.active_wb;
  started = w.started;
  active = w.active;
  waiting = w.waiting;
}

pub finished_write :
    (n g : ℕ) (m m' : Writer)
    → end_write n g m ≡ some m'
    → (done g m.active_wb ≡ some m'.active_wb) × (m'.active_writer ≡ m.active_writer)
unfolding end_write
finished_write n g m m' e = elim (Option-cases (done g m.active_wb)) [
  | inl d ↦ absurd (ground (arith, d, e))
  | inr (b, d) ↦
      let at : b ≡ m'.active_wb = ground (arith, d, e) in
      (d ∙ ap (λ c. some c) at, ground (arith, d, e))
]

pub push_active : (wl : ℕ) (m : Writer) → (push_new_log wl m).writer.active_writer ≡ some wl
unfolding push_new_log
push_active wl m = elim (Option-cases m.active_writer) [
  | inl e ↦ rw (e, push_new_log) refl
  | inr (old, e) ↦ rw (e, push_new_log) refl
]

-- The barrier after the begin of a call
abbrev begun : WaitBarrier.WaitBarrier → Option ℕ → WaitBarrier.WaitBarrier
begun b w = elim w [ none ↦ b | some g ↦ WaitBarrier.add_one b.made (WaitBarrier.new_group b) ]

began : (b : WaitBarrier.WaitBarrier) → (begin_barrier b).1 ≡ begun b b.wg
unfolding begin_barrier
began b = elim (Option-cases b.wg) [ inl h ↦ ground (arith, h) | inr (g, h) ↦ ground (arith, h) ]

pub begin_none :
    (b : WaitBarrier.WaitBarrier) → (begin_barrier b).0 ≡ none → (begin_barrier b).1 ≡ b
unfolding begin_barrier
begin_none b e = elim (Option-cases b.wg) [
  | inl h ↦ began b ∙ ap (begun b) h
  | inr (g, h) ↦ absurd (ground (arith, h, e))
]

push_none :
    (wl : ℕ) (m : Writer)
    → (push_new_log wl m).groups ≡ none
    → (push_new_log wl m).writer.active_wb ≡ m.active_wb
unfolding push_new_log
push_none wl m e = elim (Option-cases m.active_writer) [
  | inl h ↦ rw (h, push_new_log) refl
  | inr (old, h) ↦ rw (h, push_new_log) (begin_none m.active_wb (ground (arith, h, e)))
]

push_some :
    (wl old : ℕ) (m : Writer) (p : ℕ × ℕ)
    → m.active_writer ≡ some old
    → (push_new_log wl m).groups ≡ some p
    → begin_barrier m.active_wb ≡ (some p, (push_new_log wl m).writer.active_wb)
unfolding push_new_log
push_some wl old m p h e =
    let first : (begin_barrier m.active_wb).0 ≡ some p = ground (arith, h, e) in
    rw (h, push_new_log) (λ i. (first i, (begin_barrier m.active_wb).1))

pub users-Reach :
    {block_size : ℕ} {w : Writes} → WriteReach block_size w → WaitBarrier.Reach (users w)
unfolding start_write
users-Reach initial = WaitBarrier.initial
users-Reach (later {w} r writes) =
    let c = start w.writer.active_wb in
    WaitBarrier.later (users-Reach r) (WaitBarrier.starts c.0 c.1 refl)
users-Reach (later {w} r (written n i g m a e)) =
    WaitBarrier.later (users-Reach r)
      (WaitBarrier.ends i g m.active_wb a (finished_write n g w.writer m e).0)
users-Reach (later {w} r (replaces e)) =
    let same = sym (push_none w.next_log w.writer e) in
    subst WaitBarrier.Reach
      (λ j. record {
        barrier = same j;
        started = w.started;
        active = w.active;
        waiting = w.waiting;
      })
      (users-Reach r)
users-Reach (later {w} r (waits old g own h e)) = WaitBarrier.later (users-Reach r) (
    WaitBarrier.waits g own (push_new_log w.next_log w.writer).writer.active_wb
      (push_some w.next_log old w.writer (g, own) h e))
users-Reach (later r (returns g own at b a z d)) =
    WaitBarrier.later (users-Reach r) (WaitBarrier.returns g own at b a z d)
