-- ===== src/Tracker/Reader/Removal/Quiet.antt =====
-- RemoveWriter of internal/tracker/reader.go waits for the reads that have the log.
use logblock.Prelude.{
  ℕ, update, ◌+◌, ◌≤◌, ◌<◌, ◌≡◌, refl, sym, ap, ◌∙◌, subst, inl, inr, false, Option, none, some, [],
  arith, ◌==◌, Bool-cases,
}
use logblock.Adaptor.{BlockHoleReader}
use logblock.RangeMap.Index.{RangeIndex}
use logblock.BlockMap.{FreeSet}
use logblock.Util.WaitBarrier.Safety.{barrier_waits}
use logblock.Tracker.Reader.{
  Reader, new_reader, build_reader_stack, delete_writer, push_writer, start_read,
}
use logblock.Tracker.Reader.Steps.{end_read_lem}
use logblock.Tracker.Reader.Removal.{
  Reads, ReadReach, reads, read_over, log_pushed, tables_change, passes, waits, returns, initial,
  later,
}
use logblock.Tracker.Reader.Removal.{in_stack}
use logblock.Tracker.Reader.Removal.Logs.{
  Newer, is_log, Newer-delete, still_gone, deleted_below, no_log, in_stack-built,
}
use logblock.Tracker.Reader.Removal.Parts.{
  Built, Rest, TableStep-Kept, BarrierStep-Rest, users-Reach,
}

module _ (I : RangeIndex) (F : FreeSet) (tables : ℕ → BlockHoleReader) where
  pub record RemovalInv (w : Reads I F tables) : Type 0 where
    pub built : Built I F tables w.reader
    pub newer : Newer w.next_log w.reader.writers
    pub no_later_stack : (i : ℕ) → w.started ≤ i → w.stacks i ≡ []
    -- A log that has been removed is not there any more, and no later read has it.
    pub gone :
        (g own at l : ℕ)
        → w.waiting g ≡ some (own, at)
        → w.removed g ≡ some l
        → (l < w.next_log)
          × (is_log l w.reader.writers ≡ false)
          × ((i : ℕ) → at ≤ i → in_stack l (w.stacks i) ≡ false)

  reads-RemovalInv :
      {w : Reads I F tables}
      → RemovalInv w
      → RemovalInv (record w {
        reader = (start_read I F w.reader).2;
        started = w.started + 1;
        active = update w.active w.started (some (start_read I F w.reader).1);
        stacks = update w.stacks w.started (start_read I F w.reader).0;
      })
  unfolding start_read
  reads-RemovalInv {w} v = record {
    built = v.built;
    newer = v.newer;
    no_later_stack = λ i h. ground (arith, v.no_later_stack i);
    gone = λ g own at l e k.
        let r = v.gone g own at l e k in
        (
          r.0,
          r.1,
          λ i h. elim (Bool-cases (w.started == i)) [
            | inl here ↦
                let now : update w.stacks w.started w.reader.reader_stack i
                    ≡ w.reader.reader_stack =
                  ground (arith, here) in
                ap (in_stack l) (now ∙ v.built)
                ∙ in_stack-built l w.reader.writers w.reader.pending_readers
                ∙ r.1
            | inr further ↦
                let now : update w.stacks w.started w.reader.reader_stack i ≡ w.stacks i =
                  ground (arith, further) in
                ap (in_stack l) now ∙ r.2 i h
          ],
        );
  }

  pushed-RemovalInv :
      {w : Reads I F tables}
      → RemovalInv w
      → RemovalInv
          (record w { reader = push_writer I F w.next_log w.reader; next_log = w.next_log + 1 })
  unfolding push_writer build_reader_stack is_log
  pushed-RemovalInv {w} v = record {
    built = refl;
    newer = (omega arith, v.newer);
    no_later_stack = v.no_later_stack;
    gone = λ g own at l e k.
        let r = v.gone g own at l e k in (omega (arith, r.0), ground (arith, r.0, r.1), r.2);
  }

  -- With the same logs
  kept-RemovalInv :
      {w : Reads I F tables} (m : Reader I F)
      → RemovalInv w
      → m.writers ≡ w.reader.writers
      → (Built I F tables w.reader → Built I F tables m)
      → RemovalInv (record w { reader = m })
  kept-RemovalInv {w} m v same b = record {
    built = b v.built;
    newer = subst (Newer w.next_log) (sym same) v.newer;
    no_later_stack = v.no_later_stack;
    gone = λ g own at l e k. let r = v.gone g own at l e k in (r.0, ap (is_log l) same ∙ r.1, r.2);
  }

  less_logs :
      {w : Reads I F tables} (m : Reader I F) (l : ℕ)
      → RemovalInv w
      → delete_writer l w.reader.writers ≡ some m.writers
      → (Built I F tables w.reader → Built I F tables m)
      → RemovalInv (record w { reader = m })
  less_logs {w} m l v d b = record {
    built = b v.built;
    newer = (Newer-delete w.next_log l w.reader.writers m.writers v.newer d).0;
    no_later_stack = v.no_later_stack;
    gone = λ g own at k e f.
        let r = v.gone g own at k e f in
        (r.0, still_gone k l w.reader.writers m.writers d r.1, r.2);
  }

  rest-RemovalInv :
      {w : Reads I F tables} (m : Reader I F) (l : Option ℕ)
      → RemovalInv w
      → Rest I F tables l w.reader.writers m.writers
      → (Built I F tables w.reader → Built I F tables m)
      → RemovalInv (record w { reader = m })
  rest-RemovalInv m none v s b = kept-RemovalInv m v s b
  rest-RemovalInv m (some l) v d b = less_logs m l v d b

  waits-RemovalInv :
      {w : Reads I F tables} (m : Reader I F) (l : Option ℕ) (g own : ℕ)
      → RemovalInv w
      → Rest I F tables l w.reader.writers m.writers
      → (Built I F tables w.reader → Built I F tables m)
      → RemovalInv (record w {
        reader = m;
        waiting = update w.waiting g (some (own, w.started));
        removed = update w.removed g l;
      })
  waits-RemovalInv {w} m l g own v s b =
      let u = rest-RemovalInv m l v s b in
      record {
        built = u.built;
        newer = u.newer;
        no_later_stack = u.no_later_stack;
        gone = λ h own' at k e f. elim (Bool-cases (g == h)) [
          | inl here ↦
              let log : l ≡ some k = ground (arith, here, f) in
              let now : w.started ≡ at = ground (arith, here, e) in
              let d : delete_writer k w.reader.writers ≡ some m.writers =
                subst (λ o. Rest I F tables o w.reader.writers m.writers) log s in
              (
                deleted_below w.next_log k w.reader.writers m.writers v.newer d,
                (Newer-delete w.next_log k w.reader.writers m.writers v.newer d).1,
                λ i after.
                    ap (in_stack k) (v.no_later_stack i (omega (arith, after, now))) ∙ no_log k,
              )
          | inr further ↦
              u.gone h own' at k (ground (arith, e, further)) (ground (arith, f, further))
        ];
      }

  ReadReach-RemovalInv :
      {block_size num_blocks : ℕ} {w : Reads I F tables}
      → ReadReach I F tables block_size num_blocks w
      → RemovalInv w
  unfolding new_reader build_reader_stack
  ReadReach-RemovalInv initial = record {
    built = refl;
    newer = tt;
    no_later_stack = λ i h. refl;
    gone = λ g own at l e k. absurd (ground (arith, k));
  }
  ReadReach-RemovalInv (later r reads) = reads-RemovalInv (ReadReach-RemovalInv r)
  ReadReach-RemovalInv (later {w} r (read_over i g m a e)) =
      let v = ReadReach-RemovalInv r in
      let (b, at) = end_read_lem I F w.reader m g e in
      let u =
        kept-RemovalInv {w = w} m v (ap (λ k. k.writers) at)
          (subst (λ k. Built I F tables w.reader → Built I F tables k) (sym at) (λ h. h)) in
      record { built = u.built; newer = u.newer; no_later_stack = u.no_later_stack; gone = u.gone }
  ReadReach-RemovalInv (later r log_pushed) = pushed-RemovalInv (ReadReach-RemovalInv r)
  ReadReach-RemovalInv (later {w} r (tables_change m t)) =
      let k = TableStep-Kept I F tables t in kept-RemovalInv m (ReadReach-RemovalInv r) k.1 k.2
  ReadReach-RemovalInv (later r (passes m l s e)) =
      let k = BarrierStep-Rest I F tables s in rest-RemovalInv m l (ReadReach-RemovalInv r) k.1 k.2
  ReadReach-RemovalInv (later r (waits m l g own s e)) =
      let k = BarrierStep-Rest I F tables s in
      waits-RemovalInv m l g own (ReadReach-RemovalInv r) k.1 k.2
  ReadReach-RemovalInv (later {w} r (returns g own at b a z d)) =
      let v = ReadReach-RemovalInv r in
      record {
        built = v.built;
        newer = v.newer;
        no_later_stack = v.no_later_stack;
        gone = λ h own' at' l e k. elim (Bool-cases (g == h)) [
          | inl here ↦ absurd (ground (arith, here, e))
          | inr further ↦ v.gone h own' at' l (ground (arith, e, further)) k
        ];
      }

  -- In every reachable state of reads, merges, compactions and changes of the logs, when the barrier of a call of RemoveWriter
  -- has no counts left to wait for, the log that it removed is not in the stack of readers, and no read in progress
  -- has it in the stack that it reads from.
  pub removed_quiet :
      {block_size num_blocks : ℕ} {w : Reads I F tables} (g own at l : ℕ)
      → ReadReach I F tables block_size num_blocks w
      → w.waiting g ≡ some (own, at)
      → w.removed g ≡ some l
      → w.reader.wb.counts g ≡ 0
      → (in_stack l w.reader.reader_stack ≡ false)
        × ((i h : ℕ) → w.active i ≡ some h → in_stack l (w.stacks i) ≡ false)
  removed_quiet {block_size} {num_blocks} {w} g own at l r e k zero_count =
      let v = ReadReach-RemovalInv r in
      let p = v.gone g own at l e k in
      (
        ap (in_stack l) v.built ∙ in_stack-built l w.reader.writers w.reader.pending_readers ∙ p.1,
        λ i h a. p.2 i (barrier_waits g own at (users-Reach I F tables r) e zero_count i h a),
      )
