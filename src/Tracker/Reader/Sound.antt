-- ===== src/Tracker/Reader/Sound.antt =====
-- What holds of every reachable state of internal/tracker/reader.go
use logblock.Prelude.{
  ℕ, ◌^◌, ◌≤◌, ◌<◌, ◌≡◌, refl, sym, ap, ◌∙◌, subst, ◌⊎◌, inl, inr, true, false, Option, none, some,
  List, [], ◌∷◌, ◌++◌,
}
use logblock.Readers.Views.{SoundReader}
use logblock.RangeMap.Index.{RangeIndex}
use logblock.BlockMap.{FreeSet, is_member, find, new_block_map}
use logblock.BlockMap.Tables.{new_block_map-IsConsistent}
use logblock.Tracker.Reader.{
  delete_writer, Reader, build_reader_stack, new_reader, push_writer, remove_writer, push_reader,
  start_read, wait_unused, compaction_done,
}
use logblock.Tracker.Reader.History.{
  Event, removes_writer, pushes_compacted, begins_compaction, Layers, apply, layers, Step, Reach,
  writer_pushed, writer_removed, reader_pushed, merge_started, merge_pushed, merge_ended,
  merge_over, read_started, read_ended, compaction_started, compacted_pushed, compacted_added,
  unused_waits, unused_removed, compaction_ended, initial, later,
}
use logblock.Tracker.Reader.Names.{first}
use logblock.Tracker.Reader.Invariant.{
  reader_pushed-TablesInv, merge_started-TablesInv, merge_ended-TablesInv, merge_over-TablesInv,
}
use logblock.Tracker.Reader.Compaction.{compaction_started-TablesInv, compaction_ended-TablesInv}
use logblock.Tracker.Reader.Steps.{
  Begins, Continues, start_merge_lem, merge_push_lem, end_merge_lem, merge_again_lem,
  start_compaction_lem, push_compacted_reader_lem, compacted_push_lem, remove_unused_lem,
  end_read_lem,
}
use logblock.Tracker.Reader.State.{settle, current, Below, Below-new, IsSound, Part, quiet}
use logblock.Tracker.Reader.Calls.{
  begins-IsSound, continues-IsSound, compacted_begins-IsSound, compacted_continues-IsSound,
  unused_removed-IsSound,
}

module _ (I : RangeIndex) (F : FreeSet) {block_size num_blocks : ℕ} (t : ℕ → SoundReader block_size)
    (small : num_blocks < 2 ^ 63) (bounded : (x b : ℕ) → num_blocks ≤ b → (t x).view b ≡ none) where
  initial-IsSound : IsSound I F t small bounded (new_reader I F block_size num_blocks) (layers [])
  unfolding new_reader build_reader_stack layers find new_block_map first is_member
  initial-IsSound = record {
    stack = refl;
    logs = refl;
    settled = new_block_map I F block_size num_blocks;
    base = [];
    known = record {
      consistent = new_block_map-IsConsistent I F block_size num_blocks;
      indexed = [];
      merged = [];
      is_recent = refl;
      distinct = tt;
      found = λ b. rw (I.get-empty b, find) refl;
      unknown = λ x u. (refl, refl);
      phase = refl;
      frozen = λ on. refl;
    };
    part = refl;
    below = refl;
  }

  delete_writer-IsSound :
      (w : ℕ) (m : Reader I F) (d : Layers)
      → IsSound I F t small bounded m d
      → IsSound I F t small bounded (remove_writer I F w m).1 (apply (removes_writer w) d)
  unfolding remove_writer apply build_reader_stack
  delete_writer-IsSound w m d s = by_rest _ refl
    where
      by_rest :
          (o : Option (List ℕ))
          → delete_writer w m.writers ≡ o
          → IsSound I F t small bounded (remove_writer I F w m).1 (apply (removes_writer w) d)
      by_rest none e =
          let same = ap (λ ws. delete_writer w ws) (sym s.logs) ∙ e in
          rw (e, remove_writer)
            (record {
              stack = s.stack;
              logs = s.logs ∙ rw same refl;
              settled = s.settled;
              base = s.base;
              known = s.known;
              part = s.part;
              below = s.below;
            })
      by_rest (some ws) e =
          let same = ap (λ ws. delete_writer w ws) (sym s.logs) ∙ e in
          rw (e, remove_writer)
            (record {
              stack = refl;
              logs = rw same refl;
              settled = s.settled;
              base = s.base;
              known = s.known;
              part = s.part;
              below = s.below;
            })

  step-IsSound :
      {es : List Event} {e : Event} {m m' : Reader I F}
      → IsSound I F t small bounded m (layers es)
      → Step I F (λ x. (t x).reader) es m e m'
      → IsSound I F t small bounded m' (layers (e ∷ es))
  unfolding layers apply push_writer push_reader start_read wait_unused compaction_done
      build_reader_stack
  step-IsSound s (writer_pushed w) = record {
    stack = refl;
    logs = ap (λ ws. w ∷ ws) s.logs;
    settled = s.settled;
    base = s.base;
    known = s.known;
    part = s.part;
    below = s.below;
  }
  step-IsSound {es} {e} {m} s (writer_removed w) = delete_writer-IsSound w m (layers es) s
  step-IsSound {es} {e} {m} s (reader_pushed r new) =
      let d = layers es in
      let (fresh, below) =
        Below-new m.compaction_push m.compacting d.recent d.older s.base r s.below new in
      record {
        stack = refl;
        logs = s.logs;
        settled = s.settled;
        base = s.base;
        known = reader_pushed-TablesInv I F t small bounded s.known r fresh;
        part = s.part;
        below = below;
      }
  step-IsSound {es} {e} {m} s (merge_started m' run) =
      let (idle, off, some_pending, at) = start_merge_lem I F m m' run in
      subst (λ k. IsSound I F t small bounded k (layers es)) (sym at)
        (record {
          stack = s.stack;
          logs = s.logs;
          settled = s.settled;
          base = s.base;
          known =
              merge_started-TablesInv I F t small bounded s.known (ap settle idle) off some_pending;
          part =
              subst
                (λ g.
                  Part I F t small bounded s.settled m.primary_index (current g m.compaction_push))
                idle s.part;
          below = s.below;
        })
  step-IsSound {es} {e} {m} s (merge_pushed m' run) =
      by_part (merge_push_lem I F m m' (λ x. (t x).reader) run)
    where
      by_part :
          Begins I F m m' ⊎ Continues I F m m' (λ x. (t x).reader)
          → IsSound I F t small bounded m' (layers es)
      by_part (inl (br, rest, rs, c, p, now, ok, at)) =
          subst (λ k. IsSound I F t small bounded k (layers es)) (sym at)
            (begins-IsSound I F t small bounded s br rest rs c p now ok)
      by_part (inr (c, rest, rs, o, p, now, ok, at)) =
          subst (λ k. IsSound I F t small bounded k (layers es)) (sym at)
            (continues-IsSound I F t small bounded s c rest rs o p now ok)
  step-IsSound {es} {e} {m} s (merge_ended m' run) =
      let (rs, now, at) = end_merge_lem I F m m' run in
      subst (λ k. IsSound I F t small bounded k (layers es)) (sym at)
        (record {
          stack = refl;
          logs = s.logs;
          settled = s.settled;
          base = s.base;
          known = merge_ended-TablesInv I F t small bounded s.known rs _ (ap settle now);
          part =
              subst
                (λ g.
                  Part I F t small bounded s.settled m.primary_index (current g m.compaction_push))
                now s.part;
          below = s.below;
        })
  step-IsSound {es} {e} {m} s (merge_over m' run) =
      let (g, now, at) = merge_again_lem I F m m' run in
      subst (λ k. IsSound I F t small bounded k (layers es)) (sym at)
        (record {
          stack = s.stack;
          logs = s.logs;
          settled = s.settled;
          base = s.base;
          known = merge_over-TablesInv I F t small bounded s.known g (ap settle now);
          part =
              subst
                (λ g.
                  Part I F t small bounded s.settled m.primary_index (current g m.compaction_push))
                now s.part;
          below = s.below;
        })
  step-IsSound s read_started = record {
    stack = s.stack;
    logs = s.logs;
    settled = s.settled;
    base = s.base;
    known = s.known;
    part = s.part;
    below = s.below;
  }
  step-IsSound {es} {e} {m} s (read_ended g m' run) =
      let (b, at) = end_read_lem I F m m' g run in
      subst (λ k. IsSound I F t small bounded k (layers es)) (sym at)
        (record {
          stack = s.stack;
          logs = s.logs;
          settled = s.settled;
          base = s.base;
          known = s.known;
          part = s.part;
          below = s.below;
        })
  step-IsSound {es} {e} {m} s (compaction_started m' run) =
      let d = layers es in
      let (off, none_left, at) = start_compaction_lem I F m m' run in
      let no_call = quiet I F t small bounded s off in
      let same = subst (λ o. Below o m.compacting d.recent d.older s.base) no_call s.below in
      subst (λ k. IsSound I F t small bounded k (apply begins_compaction d)) (sym at)
        (record {
          stack = s.stack;
          logs = s.logs;
          settled = s.settled;
          base = d.recent ++ s.base;
          known = compaction_started-TablesInv I F t small bounded s.known none_left;
          part = s.part;
          below =
              subst (λ o. Below o true [] (d.recent ++ d.older) (d.recent ++ s.base)) (sym no_call)
                (ap (λ k. d.recent ++ k) same);
        })
  step-IsSound {es} {e} {m} s (compacted_pushed r m' on none_now new run) =
      let (c, p, ok, at) = push_compacted_reader_lem I F m m' r run in
      subst (λ k. IsSound I F t small bounded k (apply (pushes_compacted r) (layers es))) (sym at)
        (compacted_begins-IsSound I F t small bounded s on r c p none_now new ok)
  step-IsSound {es} {e} {m} s (compacted_added m' run) =
      let d = layers es in
      let (c, o, p, call, ok, at) = compacted_push_lem I F m m' (λ x. (t x).reader) run in
      let b = subst (λ o. Below o m.compacting d.recent d.older s.base) call s.below in
      subst (λ k. IsSound I F t small bounded k d) (sym at)
        (compacted_continues-IsSound I F t small bounded s b.2 c o p call ok)
  step-IsSound s (unused_waits on) = record {
    stack = s.stack;
    logs = s.logs;
    settled = s.settled;
    base = s.base;
    known = s.known;
    part = s.part;
    below = s.below;
  }
  step-IsSound {es} {e} {m} s (unused_removed r iv m' on none_now number dead run) =
      let (p, gone, at) = remove_unused_lem I F m m' r run in
      subst (λ k. IsSound I F t small bounded k (layers es)) (sym at)
        (unused_removed-IsSound I F t small bounded s on r iv p none_now number dead gone)
  step-IsSound {es} {e} {m} s (compaction_ended on none_now) =
      let d = layers es in
      record {
        stack = s.stack;
        logs = s.logs;
        settled = s.settled;
        base = s.base;
        known = compaction_ended-TablesInv I F t small bounded s.known;
        part = s.part;
        below =
            subst (λ o. Below o false d.recent d.older s.base) (sym none_now)
              (subst (λ o. Below o m.compacting d.recent d.older s.base) none_now s.below);
      }

  pub Reach-IsSound :
      {es : List Event} {m : Reader I F}
      → Reach I F (λ x. (t x).reader) block_size num_blocks es m
      → IsSound I F t small bounded m (layers es)
  Reach-IsSound initial = initial-IsSound
  Reach-IsSound (later reach step) = step-IsSound (Reach-IsSound reach) step
