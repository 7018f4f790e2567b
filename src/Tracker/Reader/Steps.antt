-- ===== src/Tracker/Reader/Steps.antt =====
-- What the parts of internal/tracker/reader.go do when they do anything
use logblock.Prelude.{
  ℕ, suc, ◌≡◌, refl, sym, ap, ◌∙◌, inl, inr, ◌⊎◌, Bool, true, false, ◌||◌, Option, none, some, List,
  [], ◌∷◌, arith, ltb, ◌==◌, length, Bool-cases,
}
use logblock.Adaptor.{BlockHoleReader}
use logblock.RangeMap.Index.{RangeIndex}
use logblock.BlockMap.{FreeSet, BlockMap, PushCall, begin_push, continue_push, remove_table}
use logblock.Util.WaitBarrier.{WaitBarrier, begin_barrier, done}
use logblock.Tracker.Reader.{
  Merge, merge_idle, merge_pushing, merge_waiting, merge_adding, after_part, compacted_push,
  reverse, delete_merged, Reader, build_reader_stack, start_merge, merge_push, end_merge,
  merge_again, start_compaction, push_compacted_reader, remove_unused, end_read,
}

module _ (I : RangeIndex) (F : FreeSet) where
  abbrev or_state : Option (Reader I F) → Reader I F → Reader I F
  or_state none m = m
  or_state (some m') m = m'

  abbrev is_some : Option (Reader I F) → Bool
  is_some none = false
  is_some (some m) = true

  some_inj : {m m' : Reader I F} → ◌≡◌ {A = Option (Reader I F)} (some m) (some m') → m ≡ m'
  some_inj {m} e = ap (λ o. or_state o m) e

  not_some : {o : Option (Reader I F)} {m : Reader I F} → o ≡ none → o ≡ some m → ⊥
  not_some n e = ground (arith, ap (λ o. is_some o) (sym n ∙ e))

  module _ (m m' : Reader I F) where
    pub start_merge_lem :
        start_merge I F m ≡ some m'
        → (m.merge ≡ merge_idle)
          × (m.compacting ≡ false)
          × ((length m.pending_readers == 0) ≡ false)
          × (m' ≡ record m {
            merge = merge_pushing (reverse m.pending_readers) (reverse m.pending_readers);
          })
    unfolding start_merge
    start_merge_lem e = by_merge m.merge refl
      where
        by_merge :
            (g : Merge)
            → m.merge ≡ g
            → (m.merge ≡ merge_idle)
              × (m.compacting ≡ false)
              × ((length m.pending_readers == 0) ≡ false)
              × (m' ≡ record m {
                merge = merge_pushing (reverse m.pending_readers) (reverse m.pending_readers);
              })
        by_merge merge_idle h = elim (Bool-cases (length m.pending_readers == 0 || m.compacting)) [
          | inl waits ↦ absurd (not_some (rw (h, start_merge) (rw waits refl)) e)
          | inr goes ↦ (
            h,
            ground (arith, goes),
            ground (arith, goes),
            some_inj (sym e ∙ rw (h, start_merge) (rw goes refl)),
          )
        ]
        by_merge (merge_waiting g) h = absurd (not_some (rw (h, start_merge) refl) e)
        by_merge (merge_pushing t rs) h = absurd (not_some (rw (h, start_merge) refl) e)
        by_merge (merge_adding c rest rs) h = absurd (not_some (rw (h, start_merge) refl) e)

    -- The call of PushReader for the next table begins.
    abbrev pub Begins : Type 0
    Begins =
        (br : ℕ) × (rest : List ℕ) × (rs : List ℕ) × (c : PushCall) × (p : BlockMap I F) × (m.merge
          ≡ merge_pushing (br ∷ rest) rs)
        × (begin_push I F br m.primary_index ≡ some (c, p))
        × (m' ≡ record m { primary_index = p; merge = merge_adding c rest rs })

    -- It goes on or ends.
    abbrev pub Continues : (ℕ → BlockHoleReader) → Type 0
    Continues tables =
        (c : PushCall) × (rest : List ℕ) × (rs : List ℕ) × (o : Option PushCall) × (p : BlockMap I
          F)
        × (m.merge ≡ merge_adding c rest rs)
        × (continue_push I F (tables c.table) c m.primary_index ≡ some (o, p))
        × (m' ≡ record m { primary_index = p; merge = after_part rest rs o })

    pub merge_push_lem :
        (tables : ℕ → BlockHoleReader)
        → merge_push I F tables m ≡ some m'
        → Begins ⊎ Continues tables
    unfolding merge_push
    merge_push_lem tables e = by_merge m.merge refl
      where
        by_begin :
            (br : ℕ) (rest rs : List ℕ) (q : Option (PushCall × BlockMap I F))
            → m.merge ≡ merge_pushing (br ∷ rest) rs
            → begin_push I F br m.primary_index ≡ q
            → Begins ⊎ Continues tables
        by_begin br rest rs none h k = absurd (not_some (rw (h, merge_push) (rw k refl)) e)
        by_begin br rest rs (some (c, p)) h k =
            inl (br, rest, rs, c, p, h, k, some_inj (sym e ∙ rw (h, merge_push) (rw k refl)))

        by_part :
            (c : PushCall) (rest rs : List ℕ) (q : Option (Option PushCall × BlockMap I F))
            → m.merge ≡ merge_adding c rest rs
            → continue_push I F (tables c.table) c m.primary_index ≡ q
            → Begins ⊎ Continues tables
        by_part c rest rs none h k = absurd (not_some (rw (h, merge_push) (rw k refl)) e)
        by_part c rest rs (some (o, p)) h k =
            inr (c, rest, rs, o, p, h, k, some_inj (sym e ∙ rw (h, merge_push) (rw k refl)))

        by_merge : (g : Merge) → m.merge ≡ g → Begins ⊎ Continues tables
        by_merge merge_idle h = absurd (not_some (rw (h, merge_push) refl) e)
        by_merge (merge_waiting g) h = absurd (not_some (rw (h, merge_push) refl) e)
        by_merge (merge_pushing [] rs) h = absurd (not_some (rw (h, merge_push) refl) e)
        by_merge (merge_pushing (br ∷ rest) rs) h = by_begin br rest rs _ h refl
        by_merge (merge_adding c rest rs) h = by_part c rest rs _ h refl

    pub end_merge_lem :
        end_merge I F m ≡ some m'
        → (rs : List ℕ) × (m.merge ≡ merge_pushing [] rs)
          × (m'
              ≡ build_reader_stack I F (record m {
                pending_readers = delete_merged rs m.pending_readers;
                wb = (begin_barrier m.wb).1;
                merge = merge_waiting (begin_barrier m.wb).0;
              }))
    unfolding end_merge
    end_merge_lem e = by_merge m.merge refl
      where
        by_merge :
            (g : Merge)
            → m.merge ≡ g
            → (rs : List ℕ) × (m.merge ≡ merge_pushing [] rs)
              × (m'
                  ≡ build_reader_stack I F (record m {
                    pending_readers = delete_merged rs m.pending_readers;
                    wb = (begin_barrier m.wb).1;
                    merge = merge_waiting (begin_barrier m.wb).0;
                  }))
        by_merge merge_idle h = absurd (not_some (rw (h, end_merge) refl) e)
        by_merge (merge_waiting g) h = absurd (not_some (rw (h, end_merge) refl) e)
        by_merge (merge_pushing [] rs) h = (rs, h, some_inj (sym e ∙ rw (h, end_merge) refl))
        by_merge (merge_pushing (br ∷ rest) rs) h = absurd (not_some (rw (h, end_merge) refl) e)
        by_merge (merge_adding c rest rs) h = absurd (not_some (rw (h, end_merge) refl) e)

    pub merge_again_lem :
        merge_again I F m ≡ some m'
        → (g : Option (ℕ × ℕ)) × (m.merge ≡ merge_waiting g)
          × (m' ≡ record m { merge = merge_idle })
    unfolding merge_again
    merge_again_lem e = by_merge m.merge refl
      where
        by_merge :
            (g : Merge)
            → m.merge ≡ g
            → (g : Option (ℕ × ℕ)) × (m.merge ≡ merge_waiting g)
              × (m' ≡ record m { merge = merge_idle })
        by_merge merge_idle h = absurd (not_some (rw (h, merge_again) refl) e)
        by_merge (merge_waiting g) h = (g, h, some_inj (sym e ∙ rw (h, merge_again) refl))
        by_merge (merge_pushing todo rs) h = absurd (not_some (rw (h, merge_again) refl) e)
        by_merge (merge_adding c rest rs) h = absurd (not_some (rw (h, merge_again) refl) e)

    pub start_compaction_lem :
        start_compaction I F m ≡ some m'
        → (m.compacting ≡ false) × (m.pending_readers ≡ []) × (m' ≡ record m { compacting = true })
    unfolding start_compaction
    start_compaction_lem e = by_pending m.pending_readers m.compacting refl refl
      where
        by_pending :
            (pending : List ℕ) (compacting : Bool)
            → m.pending_readers ≡ pending
            → m.compacting ≡ compacting
            → (m.compacting ≡ false)
              × (m.pending_readers ≡ [])
              × (m' ≡ record m { compacting = true })
        by_pending pending true h k = absurd (not_some (rw (k, start_compaction) refl) e)
        by_pending [] false h k = (k, h, some_inj (sym e ∙ rw (k, start_compaction) (rw h refl)))
        by_pending (x ∷ pending) false h k =
            let some_left : ltb 0 (suc (length pending)) ≡ true = ground arith in
            absurd (not_some (rw (k, start_compaction) (rw h (rw some_left refl))) e)

    pub push_compacted_reader_lem :
        (br : ℕ)
        → push_compacted_reader I F br m ≡ some m'
        → (c : PushCall) × (p : BlockMap I F) × (begin_push I F br m.primary_index ≡ some (c, p))
          × (m' ≡ record m { primary_index = p; compaction_push = some c })
    unfolding push_compacted_reader
    push_compacted_reader_lem br e = by_result _ refl
      where
        by_result :
            (q : Option (PushCall × BlockMap I F))
            → begin_push I F br m.primary_index ≡ q
            → (c : PushCall) × (p : BlockMap I F) × (begin_push I F br m.primary_index
                ≡ some (c, p))
              × (m' ≡ record m { primary_index = p; compaction_push = some c })
        by_result none k = absurd (not_some (rw (k, push_compacted_reader) refl) e)
        by_result (some (c, p)) k = (c, p, k, some_inj (sym e ∙ rw (k, push_compacted_reader) refl))

    pub compacted_push_lem :
        (tables : ℕ → BlockHoleReader)
        → compacted_push I F tables m ≡ some m'
        → (c : PushCall) × (o : Option PushCall) × (p : BlockMap I F) × (m.compaction_push ≡ some c)
          × (continue_push I F (tables c.table) c m.primary_index ≡ some (o, p))
          × (m' ≡ record m { primary_index = p; compaction_push = o })
    unfolding compacted_push
    compacted_push_lem tables e = by_call m.compaction_push refl
      where
        by_part :
            (c : PushCall) (q : Option (Option PushCall × BlockMap I F))
            → m.compaction_push ≡ some c
            → continue_push I F (tables c.table) c m.primary_index ≡ q
            → (c : PushCall) × (o : Option PushCall) × (p : BlockMap I F) × (m.compaction_push
                ≡ some c)
              × (continue_push I F (tables c.table) c m.primary_index ≡ some (o, p))
              × (m' ≡ record m { primary_index = p; compaction_push = o })
        by_part c none h k = absurd (not_some (rw (h, compacted_push) (rw k refl)) e)
        by_part c (some (o, p)) h k =
            (c, o, p, h, k, some_inj (sym e ∙ rw (h, compacted_push) (rw k refl)))

        by_call :
            (q : Option PushCall)
            → m.compaction_push ≡ q
            → (c : PushCall) × (o : Option PushCall) × (p : BlockMap I F) × (m.compaction_push
                ≡ some c)
              × (continue_push I F (tables c.table) c m.primary_index ≡ some (o, p))
              × (m' ≡ record m { primary_index = p; compaction_push = o })
        by_call none h = absurd (not_some (rw (h, compacted_push) refl) e)
        by_call (some c) h = by_part c _ h refl

    pub remove_unused_lem :
        (br : ℕ)
        → remove_unused I F br m ≡ some m'
        → (p : BlockMap I F) × (remove_table I F br m.primary_index ≡ some p)
          × (m' ≡ record m { primary_index = p })
    unfolding remove_unused
    remove_unused_lem br e = by_result _ refl
      where
        by_result :
            (q : Option (BlockMap I F))
            → remove_table I F br m.primary_index ≡ q
            → (p : BlockMap I F) × (remove_table I F br m.primary_index ≡ some p)
              × (m' ≡ record m { primary_index = p })
        by_result none k = absurd (not_some (rw (k, remove_unused) refl) e)
        by_result (some p) k = (p, k, some_inj (sym e ∙ rw (k, remove_unused) refl))

    pub end_read_lem :
        (g : ℕ) → end_read I F g m ≡ some m' → (b : WaitBarrier) × (m' ≡ record m { wb = b })
    unfolding end_read
    end_read_lem g e = by_result _ refl
      where
        by_result :
            (q : Option WaitBarrier)
            → done g m.wb ≡ q
            → (b : WaitBarrier) × (m' ≡ record m { wb = b })
        by_result none k = absurd (not_some (rw (k, end_read) refl) e)
        by_result (some b) k = (b, some_inj (sym e ∙ rw (k, end_read) refl))
