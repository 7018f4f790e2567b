-- ===== src/Tracker/Writer/Replaced.antt =====
-- Which log the writes in progress go to while `PushNewLog` of internal/tracker/writer.go replaces the active one.
use logblock.Prelude.{
  ℕ, update, ◌+◌, ◌≤◌, ◌<◌, ◌≡◌, ◌≢◌, refl, sym, ◌∙◌, inl, inr, Option, none, some, arith, ◌==◌,
  Bool-cases,
}
use logblock.Util.WaitBarrier
use logblock.Util.WaitBarrier.Safety.{barrier_waits}
use logblock.Tracker.Writer.{Writer, push_new_log, start_write, end_write}
use logblock.Tracker.Writer.Writes.{
  Writes, writes, written, replaces, waits, returns, WriteReach, initial, later, finished_write,
  push_active, users-Reach,
}

pub record WriteInv (w : Writes) : Type 0 where
  pub active_log : (l : ℕ) → w.writer.active_writer ≡ some l → l < w.next_log
  pub no_later_log : (i : ℕ) → w.started ≤ i → w.logs i ≡ none
  -- The old log of a call is not the active one, and no context from after the call writes to it.
  pub replaced :
      (g own at : ℕ)
      → w.waiting g ≡ some (own, at)
      → (w.old_logs g < w.next_log)
        × (w.writer.active_writer ≢ some (w.old_logs g))
        × ((i : ℕ) → at ≤ i → w.logs i ≢ some (w.old_logs g))

later_log : (l n : ℕ) (v : Option ℕ) → v ≡ some n → l < n → v ≢ some l
later_log l n v e small h = let at : n ≡ l = ground (arith, e, h) in omega (arith, small, at)

module _ {w : Writes} (inv : WriteInv w) where
  writes-WriteInv : WriteInv (record w {
    writer = (start_write w.writer).2;
    started = w.started + 1;
    active = update w.active w.started (some (start_write w.writer).1);
    logs = update w.logs w.started w.writer.active_writer;
  })
  unfolding start_write
  writes-WriteInv = record {
    active_log = inv.active_log;
    no_later_log = λ i h. ground (arith, inv.no_later_log i);
    replaced = λ g own at e.
        let r = inv.replaced g own at e in
        (
          r.0,
          r.1,
          λ i h. elim (Bool-cases (w.started == i)) [
            | inl here ↦ λ k. r.1 (ground (arith, here, k))
            | inr other ↦ λ k. r.2 i h (ground (arith, other, k))
          ],
        );
  }

  written-WriteInv :
      (n i g : ℕ) (m : Writer)
      → end_write n g w.writer ≡ some m
      → WriteInv (record w { writer = m; active = update w.active i none })
  written-WriteInv n i g m e =
      let same = (finished_write n g w.writer m e).1 in
      record {
        active_log = λ l h. inv.active_log l (sym same ∙ h);
        no_later_log = inv.no_later_log;
        replaced =
            λ h own at f. let r = inv.replaced h own at f in (r.0, λ k. r.1 (sym same ∙ k), r.2);
      }

  -- With a new active log
  newest :
      (l : ℕ)
      → (push_new_log w.next_log w.writer).writer.active_writer ≡ some l
      → l < w.next_log + 1
  newest l h =
      let at : w.next_log ≡ l = ground (arith, h, push_active w.next_log w.writer) in
      omega (arith, at)

  older :
      (l : ℕ) → l < w.next_log → (push_new_log w.next_log w.writer).writer.active_writer ≢ some l
  older l small =
      later_log l w.next_log (push_new_log w.next_log w.writer).writer.active_writer
        (push_active w.next_log w.writer) small

  replaces-WriteInv :
      WriteInv
        (record w { writer = (push_new_log w.next_log w.writer).writer; next_log = w.next_log + 1 })
  replaces-WriteInv = record {
    active_log = newest;
    no_later_log = inv.no_later_log;
    replaced = λ g own at e.
        let r = inv.replaced g own at e in (omega (arith, r.0), older (w.old_logs g) r.0, r.2);
  }

  waits-WriteInv :
      (old g own : ℕ)
      → w.writer.active_writer ≡ some old
      → WriteInv (record w {
        writer = (push_new_log w.next_log w.writer).writer;
        next_log = w.next_log + 1;
        waiting = update w.waiting g (some (own, w.started));
        old_logs = update w.old_logs g old;
      })
  waits-WriteInv old g own a =
      let small = inv.active_log old a in
      record {
        active_log = newest;
        no_later_log = inv.no_later_log;
        replaced = λ h own' at e. elim (Bool-cases (g == h)) [
          | inl here ↦
              let now : w.started ≡ at = ground (arith, here, e) in
              let log : update w.old_logs g old h ≡ old = ground (arith, here) in
              rw log (
                omega (arith, small),
                older old small,
                λ i f k. absurd (ground (arith, inv.no_later_log i (omega (arith, f, now)), k)),
              )
          | inr other ↦
              let log : update w.old_logs g old h ≡ w.old_logs h = ground (arith, other) in
              let r = inv.replaced h own' at (ground (arith, other, e)) in
              rw log (omega (arith, r.0), older (w.old_logs h) r.0, r.2)
        ];
      }

  returns-WriteInv :
      (g : ℕ) (b : WaitBarrier.WaitBarrier)
      → WriteInv (record w {
        writer = record w.writer { active_wb = b; write_count = 0 };
        waiting = update w.waiting g none;
      })
  returns-WriteInv g b = record {
    active_log = inv.active_log;
    no_later_log = inv.no_later_log;
    replaced = λ h own at e. elim (Bool-cases (g == h)) [
      | inl here ↦ absurd (ground (arith, here, e))
      | inr other ↦ inv.replaced h own at (ground (arith, other, e))
    ];
  }

WriteReach-WriteInv : {block_size : ℕ} {w : Writes} → WriteReach block_size w → WriteInv w
WriteReach-WriteInv initial = record {
  active_log = λ l e. cc;
  no_later_log = λ i h. refl;
  replaced = λ g own at e. cc;
}
WriteReach-WriteInv (later r writes) = writes-WriteInv (WriteReach-WriteInv r)
WriteReach-WriteInv (later r (written n i g m a e)) =
    written-WriteInv (WriteReach-WriteInv r) n i g m e
WriteReach-WriteInv (later r (replaces e)) = replaces-WriteInv (WriteReach-WriteInv r)
WriteReach-WriteInv (later r (waits old g own a e)) =
    waits-WriteInv (WriteReach-WriteInv r) old g own a
WriteReach-WriteInv (later r (returns g own at b a z d)) =
    returns-WriteInv (WriteReach-WriteInv r) g b

-- In every reachable state of writes and calls of PushNewLog, when the barrier of a call has no counts left to wait for,
-- its old log is not the active one, and no write in progress goes to it.
pub old_log_quiet :
    {block_size : ℕ} {w : Writes} (g own at : ℕ)
    → WriteReach block_size w
    → w.waiting g ≡ some (own, at)
    → w.writer.active_wb.counts g ≡ 0
    → (w.writer.active_writer ≢ some (w.old_logs g))
      × ((i h : ℕ) → w.active i ≡ some h → w.logs i ≢ some (w.old_logs g))
old_log_quiet g own at r e zero_count =
    let p = (WriteReach-WriteInv r).replaced g own at e in
    (p.1, λ i h a. p.2 i (barrier_waits g own at (users-Reach r) e zero_count i h a))
