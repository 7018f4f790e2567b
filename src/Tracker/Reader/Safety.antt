-- ===== src/Tracker/Reader/Safety.antt =====
-- The merge of tables into the block map and compactions by internal/tracker/reader.go are not seen by those who read.
use logblock.Prelude.{
  ℕ, suc, ◌^◌, ◌≤◌, ◌<◌, ◌-◌, ◌≡◌, ◌≢◌, refl, sym, ap, ◌∙◌, subst, ◌⊎◌, inl, inr, Bool, true, none,
  some, List, ◌∷◌, arith, Option,
}
use logblock.Readers.Views.{SoundReader}
use logblock.RangeMap.Index.{RangeIndex}
use logblock.BlockMap.{FreeSet, BlockMap, PushCall, begin_push, find}
use logblock.BlockMap.Parts.{IsPushing, Continued, begin_push-IsPushing, continue_push-Continued}
use logblock.Tracker.Reader.{
  Merge, merge_idle, merge_waiting, merge_pushing, merge_adding, after_part, Reader, merge_push,
}
use logblock.Tracker.Reader.History.{Event, layers, Reach}
use logblock.Tracker.Reader.Names.{first, or_first}
use logblock.Tracker.Reader.Invariant.{next-Unknown}
use logblock.Tracker.Reader.Between.{tables_show_lem}
use logblock.Tracker.Reader.Shown.{
  shown, newest, table_has, of_table, of_log, shown-tables, shown-logs,
}
use logblock.Tracker.Reader.State.{IsSound, Part, current, settle, settled_now, quiet, merge_alone}
use logblock.Tracker.Reader.Sound.{Reach-IsSound}

-- The most parts that are left of a merge's next call of PushReader, or of the one that goes on
abbrev pub parts_left : ℕ → Merge → ℕ
parts_left num_blocks merge_idle = 0
parts_left num_blocks (merge_waiting g) = 0
parts_left num_blocks (merge_pushing todo rs) = suc (suc num_blocks)
parts_left num_blocks (merge_adding c rest rs) = suc (num_blocks - c.offset)

module _ (I : RangeIndex) (F : FreeSet) {block_size num_blocks : ℕ} (t : ℕ → SoundReader block_size)
    (small : num_blocks < 2 ^ 63) (bounded : (x b : ℕ) → num_blocks ≤ b → (t x).view b ≡ none) where
  -- In every reachable state, also between the parts of a call of PushReader by a merge or by a compaction, which adds
  -- its blocks in batches, the stack of readers shows for each block the newest log that has it, or else the newest
  -- table that has it, in the order in which they were pushed, a compacted table below those pushed since its compaction
  -- began; or, while a compaction's call of PushReader goes on, for a block of its table, what was shown without that
  -- table. The states are those reached if each table is pushed once, and those who compact hold the state, make one call
  -- after the other and remove only tables that no block is found in; the tables are sound and have
  -- no blocks beyond the device, which has less than 2^63.
  pub shown-newest :
      {es : List Event} {m : Reader I F}
      → Reach I F (λ x. (t x).reader) block_size num_blocks es m
      → (has_log : ℕ → ℕ → Bool) (b : ℕ)
      → (shown I F has_log (table_has t) m.primary_index m.reader_stack b
          ≡ newest has_log (table_has t) (layers es) b)
        ⊎ ((c : PushCall) × (base : List ℕ) × (m.compaction_push ≡ some c)
            × ((layers es).older ≡ c.table ∷ base)
            × (table_has t c.table b ≡ true)
            × (shown I F has_log (table_has t) m.primary_index m.reader_stack b
                ≡ newest has_log (table_has t) (record (layers es) { older = base }) b))
  unfolding newest
  shown-newest {es} {m} reach has_log b = elim (tables_show_lem I F t small bounded s b) [
    | inl e ↦ inl (with_logs ∙ ap (λ o. of_log (first has_log (layers es).logs b) (of_table o)) e)
    | inr (c, base, call, at, h, e) ↦ inr (
      c,
      base,
      call,
      at,
      h,
      with_logs ∙ ap (λ o. of_log (first has_log (layers es).logs b) (of_table o)) e,
    )
  ]
    where
      s : IsSound I F t small bounded m (layers es)
      s = Reach-IsSound I F t small bounded reach

      with_logs :
          shown I F has_log (table_has t) m.primary_index m.reader_stack b
          ≡ of_log (first has_log (layers es).logs b) (
              of_table
                (or_first (first (table_has t) m.pending_readers b) (find I F m.primary_index b)))
      with_logs =
          ap (λ ls. shown I F has_log (table_has t) m.primary_index ls b) s.stack
          ∙ shown-logs I F has_log (table_has t) m.primary_index b m.writers _
          ∙ (λ i.
              of_log (first has_log (s.logs i) b)
                (shown-tables I F has_log (table_has t) m.primary_index b m.pending_readers i))

  after_lem :
      {before k : BlockMap I F} {c : PushCall} (q : IsPushing I F t small bounded before c k)
      → (g : Merge) (r : ℕ) (rest rs : List ℕ) → g ≡ merge_adding c rest rs
      → c.table ≡ r
      → (o : Option PushCall) (p : BlockMap I F) → Continued I F t small bounded q o p
      → (after_part rest rs o ≡ merge_pushing rest rs)
        ⊎ ((c : PushCall) × (after_part rest rs o ≡ merge_adding c rest rs)
            × (c.table ≡ r)
            × (parts_left num_blocks (after_part rest rs o) < parts_left num_blocks g))
  unfolding after_part
  after_lem q g r rest rs now named none p after = inl refl
  after_lem {c = c} q g r rest rs now named (some c') p after =
      let (table, pushing, more, within) = after in
      let left = ap (parts_left num_blocks) now in
      inr (
        c',
        refl,
        table ∙ named,
        subst (λ k. suc (num_blocks - c'.offset) < k) (sym left) (omega (arith, more, within)),
      )

  -- In every reachable state in which a merge is at its next call of PushReader, with a number free in the block map, or
  -- between two parts of such a call, the next part ends without a panic, and the call is over or goes on with the
  -- same table and with fewer parts left than before, of at most two more than the blocks of the device. The states are those reached if each table is pushed once, and those who compact hold the state, make
  -- one call after the other and remove only tables that no block is found in; the tables are sound and have no
  -- blocks beyond the device, which has less than 2^63.
  pub merge_pushes :
      {es : List Event} {m : Reader I F}
      → Reach I F (λ x. (t x).reader) block_size num_blocks es m
      → (r : ℕ) (rest rs : List ℕ)
      → ((nv : ℕ) × (m.merge ≡ merge_pushing (r ∷ rest) rs)
          × (F.next m.primary_index.free_set ≡ some nv))
        ⊎ ((c : PushCall) × (m.merge ≡ merge_adding c rest rs) × (c.table ≡ r))
      → (m' : Reader I F) × (merge_push I F (λ x. (t x).reader) m ≡ some m')
        × ((m'.merge ≡ merge_pushing rest rs)
            ⊎ ((c : PushCall) × (m'.merge ≡ merge_adding c rest rs)
                × (c.table ≡ r)
                × (parts_left num_blocks m'.merge < parts_left num_blocks m.merge)))
  unfolding merge_push after_part
  merge_pushes {es} {m} reach r rest rs (inl (nv, now, free)) =
      let s = Reach-IsSound I F t small bounded reach in
      let no_call =
        quiet I F t small bounded s
          (merge_alone I F t small bounded s (r ∷ rest) rs (ap settle now)) in
      let same =
        settled_now I F t small bounded s (merge_pushing (r ∷ rest) rs) none now no_call refl in
      let (c, p, ok, named, q) =
        begin_push-IsPushing I F t small bounded s.settled r nv s.known.consistent
          (next-Unknown I F t small bounded s.known r rest rs (ap settle now))
          (ap (λ k. F.next k.free_set) (sym same) ∙ free) in
      let run = ap (λ k. begin_push I F r k) same ∙ ok in
      (
        record m { primary_index = p; merge = merge_adding c rest rs },
        rw (now, merge_push) (rw (run, merge_push) refl),
        inr (
          c,
          refl,
          named,
          subst (λ k. suc (num_blocks - c.offset) < k) (sym (ap (parts_left num_blocks) now))
              (omega arith),
        ),
      )
  merge_pushes {es} {m} reach r rest rs (inr (c, now, named)) =
      let s = Reach-IsSound I F t small bounded reach in
      let q =
        subst
          (λ g. Part I F t small bounded s.settled m.primary_index (current g m.compaction_push))
          now s.part in
      let (o, p, run, after) = continue_push-Continued I F t small bounded q in
      (
        record m { primary_index = p; merge = after_part rest rs o },
        rw (now, merge_push) (rw (run, merge_push) refl),
        after_lem q m.merge r rest rs now named o p after,
      )

  -- In no reachable state does a merge change the block map, or stand between two parts of a change, while a compaction
  -- goes on. The tables are sound and have no blocks beyond the device, which has less than 2^63.
  pub compaction_alone :
      {es : List Event} {m : Reader I F}
      → Reach I F (λ x. (t x).reader) block_size num_blocks es m
      → m.compacting ≡ true
      → (c : PushCall) (todo rs : List ℕ)
      → (m.merge ≢ merge_pushing todo rs) × (m.merge ≢ merge_adding c todo rs)
  compaction_alone {es} {m} reach on c todo rs =
      let s = Reach-IsSound I F t small bounded reach in
      (
        λ now.
            let off = merge_alone I F t small bounded s todo rs (ap settle now) in
            ground (arith, off, on),
        λ now.
            let off = merge_alone I F t small bounded s (c.table ∷ todo) rs (ap settle now) in
            ground (arith, off, on),
      )
