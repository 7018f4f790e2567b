-- ===== src/Tracker/Reader/Removal/Parts.antt =====
-- What the steps of internal/tracker/reader.go do to the barrier, the logs and the stack of readers
use logblock.Prelude.{
  ℕ, ◌≡◌, refl, sym, ap, ◌∙◌, subst, inl, inr, Option, none, some, List, [], ◌∷◌, ◌++◌, arith, map,
  Option-cases,
}
use logblock.Adaptor.{BlockHoleReader}
use logblock.RangeMap.Index.{RangeIndex}
use logblock.BlockMap.{FreeSet}
use logblock.Util.WaitBarrier
use logblock.Util.WaitBarrier.{start, done, begin_barrier}
use logblock.Tracker.Writer.Writes.{begin_none}
use logblock.Tracker.Reader.{
  writer_layer, reader_layer, primary_layer, Reader, new_reader, build_reader_stack, delete_writer,
  push_writer, remove_writer, push_reader, start_read, end_read, wait_unused, compaction_done,
}
use logblock.Tracker.Reader.Steps.{
  start_merge_lem, merge_push_lem, end_merge_lem, merge_again_lem, start_compaction_lem,
  push_compacted_reader_lem, compacted_push_lem, remove_unused_lem,
}
use logblock.Tracker.Reader.Removal.{
  Reads, TableStep, BarrierStep, ReadReach, users, table_pushed, merge_started, merge_pushed,
  merge_over, compaction_started, compacted_pushed, compacted_added, unused_removed,
  compaction_ended, merge_ended, unused_waits, log_removed, reads, read_over, log_pushed,
  tables_change, passes, waits, returns, initial, later,
}

module _ (I : RangeIndex) (F : FreeSet) (tables : ℕ → BlockHoleReader) where
  abbrev pub Built : Reader I F → Type 0
  Built m =
      m.reader_stack
      ≡ map writer_layer m.writers ++ (map reader_layer m.pending_readers ++ primary_layer ∷ [])

  abbrev pub Kept : Reader I F → Reader I F → Type 0
  Kept m m' = (m'.wb ≡ m.wb) × (m'.writers ≡ m.writers) × (Built m → Built m')

  pub TableStep-Kept : {m m' : Reader I F} → TableStep I F tables m m' → Kept m m'
  unfolding push_reader build_reader_stack compaction_done
  TableStep-Kept {m} (table_pushed r e) = subst (λ k. Kept m k) e (refl, refl, λ b. refl)
  TableStep-Kept {m} {m'} (merge_started e) =
      subst (λ k. Kept m k) (sym (start_merge_lem I F m m' e).3) (refl, refl, λ b. b)
  TableStep-Kept {m} {m'} (merge_pushed e) = elim (merge_push_lem I F m m' tables e) [
    | inl (br, rest, rs, c, p, now, run, at) ↦ subst (λ k. Kept m k) (sym at) (refl, refl, λ b. b)
    | inr (c, rest, rs, o, p, now, run, at) ↦ subst (λ k. Kept m k) (sym at) (refl, refl, λ b. b)
  ]
  TableStep-Kept {m} {m'} (merge_over e) =
      subst (λ k. Kept m k) (sym (merge_again_lem I F m m' e).2) (refl, refl, λ b. b)
  TableStep-Kept {m} {m'} (compaction_started e) =
      subst (λ k. Kept m k) (sym (start_compaction_lem I F m m' e).2) (refl, refl, λ b. b)
  TableStep-Kept {m} {m'} (compacted_pushed r e) =
      let (c, p, run, at) = push_compacted_reader_lem I F m m' r e in
      subst (λ k. Kept m k) (sym at) (refl, refl, λ b. b)
  TableStep-Kept {m} {m'} (compacted_added e) =
      let (c, o, p, call, run, at) = compacted_push_lem I F m m' tables e in
      subst (λ k. Kept m k) (sym at) (refl, refl, λ b. b)
  TableStep-Kept {m} {m'} (unused_removed r e) =
      subst (λ k. Kept m k) (sym (remove_unused_lem I F m m' r e).2) (refl, refl, λ b. b)
  TableStep-Kept {m} (compaction_ended e) = subst (λ k. Kept m k) e (refl, refl, λ b. b)

  -- What a step with a barrier does: without a log the logs stay, or else the log goes.
  abbrev pub Rest : Option ℕ → List ℕ → List ℕ → Type 0
  Rest none ws ws' = ws' ≡ ws
  Rest (some l) ws ws' = delete_writer l ws ≡ some ws'

  pub BarrierStep-Rest :
      {m m' : Reader I F} {l : Option ℕ}
      → BarrierStep I F tables m m' l
      → (m'.wb ≡ (begin_barrier m.wb).1) × Rest l m.writers m'.writers × (Built m → Built m')
  unfolding build_reader_stack wait_unused remove_writer
  BarrierStep-Rest {m} {m'} (merge_ended e) =
      subst (λ k. (k.wb ≡ (begin_barrier m.wb).1) × (k.writers ≡ m.writers) × (Built m → Built k))
        (sym (end_merge_lem I F m m' e).2) (refl, refl, λ b. refl)
  BarrierStep-Rest {m} (unused_waits e) =
      subst (λ k. (k.wb ≡ (begin_barrier m.wb).1) × (k.writers ≡ m.writers) × (Built m → Built k)) e
        (refl, refl, λ b. b)
  BarrierStep-Rest {m} (log_removed l ws d e) =
      subst
        (λ k.
          (k.wb ≡ (begin_barrier m.wb).1)
          × (delete_writer l m.writers ≡ some k.writers)
          × (Built m → Built k))
        e (rw (d, remove_writer) (refl, refl, λ b. refl))

  pub finished_read :
      (m m' : Reader I F) (g : ℕ) → end_read I F g m ≡ some m' → done g m.wb ≡ some m'.wb
  unfolding end_read
  finished_read m m' g e = elim (Option-cases (done g m.wb)) [
    | inl d ↦ absurd (ground (arith, d, e))
    | inr (b, d) ↦ let at : b ≡ m'.wb = ground (arith, d, e) in d ∙ ap (λ c. some c) at
  ]

  pub same_users :
      (w : Reads I F tables) (m : Reader I F)
      → m.wb ≡ w.reader.wb
      → WaitBarrier.Reach (users I F tables w)
      → WaitBarrier.Reach (users I F tables (record w { reader = m }))
  same_users w m same r =
      subst
        (λ b.
          WaitBarrier.Reach
            (record { barrier = b; started = w.started; active = w.active; waiting = w.waiting }))
        (sym same) r

  pub users-Reach :
      {block_size num_blocks : ℕ} {w : Reads I F tables}
      → ReadReach I F tables block_size num_blocks w
      → WaitBarrier.Reach (users I F tables w)
  unfolding new_reader build_reader_stack start_read push_writer
  users-Reach initial = WaitBarrier.initial
  users-Reach (later {w} r reads) =
      let c = start w.reader.wb in
      WaitBarrier.later (users-Reach r) (WaitBarrier.starts c.0 c.1 refl)
  users-Reach (later {w} r (read_over i g m a e)) =
      WaitBarrier.later (users-Reach r) (WaitBarrier.ends i g m.wb a (finished_read w.reader m g e))
  users-Reach (later r log_pushed) = users-Reach r
  users-Reach (later {w} r (tables_change m t)) =
      same_users w m (TableStep-Kept t).0 (users-Reach r)
  users-Reach (later {w} r (passes m l s e)) =
      same_users w m ((BarrierStep-Rest s).0 ∙ begin_none w.reader.wb e) (users-Reach r)
  users-Reach (later {w} r (waits m l g own s e)) =
      WaitBarrier.later (users-Reach r)
        (WaitBarrier.waits g own m.wb (λ i. (e i, sym (BarrierStep-Rest s).0 i)))
  users-Reach (later r (returns g own at b a z d)) =
      WaitBarrier.later (users-Reach r) (WaitBarrier.returns g own at b a z d)
