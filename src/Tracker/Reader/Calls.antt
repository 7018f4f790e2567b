-- ===== src/Tracker/Reader/Calls.antt =====
-- The parts of the calls of PushReader and RemoveTable by internal/tracker/reader.go keep what holds of a state.
use logblock.Prelude.{
  ℕ, ◌^◌, ◌≤◌, ◌<◌, ◌≡◌, ◌≢◌, refl, sym, ap, ◌∙◌, subst, true, false, Option, none, some, List, ◌∷◌,
  ◌++◌,
}
use logblock.Readers.Views.{SoundReader}
use logblock.RangeMap.Index.{RangeIndex}
use logblock.BlockMap.{
  FreeSet, BlockMap, PushCall, begin_push, continue_push, is_member, remove_table,
}
use logblock.BlockMap.Parts.{IsPushing, begun, Continued, continue_push-Continued}
use logblock.Tracker.Reader.{merge_pushing, merge_adding, after_part, Reader}
use logblock.Tracker.Reader.History.{pushes_compacted, Layers, apply}
use logblock.Tracker.Reader.Invariant.{next-Unknown, merge_pushed-TablesInv}
use logblock.Tracker.Reader.Compaction.{
  compacted-Unknown, compacted_pushed-TablesInv, unused_removed-TablesInv,
}
use logblock.Tracker.Reader.State.{
  settle, current, or_part, Below, not_merging, IsSound, Part, Known, quiet, merge_alone,
  settled_now,
}

module _ (I : RangeIndex) (F : FreeSet) {block_size num_blocks : ℕ} (t : ℕ → SoundReader block_size)
    (small : num_blocks < 2 ^ 63) (bounded : (x b : ℕ) → num_blocks ≤ b → (t x).view b ≡ none) where
  module _ {m : Reader I F} {d : Layers} (s : IsSound I F t small bounded m d) where
    pub begins-IsSound :
        (br : ℕ) (rest rs : List ℕ) (c : PushCall) (p : BlockMap I F)
        → m.merge ≡ merge_pushing (br ∷ rest) rs
        → begin_push I F br m.primary_index ≡ some (c, p)
        → IsSound I F t small bounded
            (record m { primary_index = p; merge = merge_adding c rest rs })
            d
    begins-IsSound br rest rs c p now run =
        let e = ap settle now in
        let no_call =
          quiet I F t small bounded s (merge_alone I F t small bounded s (br ∷ rest) rs e) in
        let same =
          settled_now I F t small bounded s (merge_pushing (br ∷ rest) rs) none now no_call refl in
        let (named, pushing) =
          begun I F t small bounded s.settled br c p s.known.consistent
            (next-Unknown I F t small bounded s.known br rest rs e)
            (ap (λ b. begin_push I F br b) (sym same) ∙ run) in
        record {
          stack = s.stack;
          logs = s.logs;
          settled = s.settled;
          base = s.base;
          known =
              subst (Known I F t small bounded s s.settled)
                (e ∙ ap (λ k. merge_pushing (k ∷ rest) rs) (sym named)) s.known;
          part = pushing;
          below = s.below;
        }

    continued :
        (c : PushCall) (o : Option PushCall) (p : BlockMap I F)
        → (q : IsPushing I F t small bounded s.settled c m.primary_index)
        → continue_push I F (t c.table).reader c m.primary_index ≡ some (o, p)
        → Continued I F t small bounded q o p
    continued c o p q run =
        let (o', p', eq, after) = continue_push-Continued I F t small bounded q in
        let same : ◌≡◌ {A = Option PushCall × BlockMap I F} (o', p') (o, p) =
          ap (λ k. or_part k (o, p)) (sym eq ∙ run) in
        subst (λ k. Continued I F t small bounded q k.0 k.1) same after

    pub continues-IsSound :
        (c : PushCall) (rest rs : List ℕ) (o : Option PushCall) (p : BlockMap I F)
        → m.merge ≡ merge_adding c rest rs
        → continue_push I F (t c.table).reader c m.primary_index ≡ some (o, p)
        → IsSound I F t small bounded
            (record m { primary_index = p; merge = after_part rest rs o })
            d
    unfolding after_part
    continues-IsSound c rest rs o p now run =
        let q =
          subst
            (λ g. Part I F t small bounded s.settled m.primary_index (current g m.compaction_push))
            now s.part in
        by_part o (continued c o p q run)
      where
        e : settle m.merge ≡ merge_pushing (c.table ∷ rest) rs
        e = ap settle now

        by_part :
            (o : Option PushCall)
            → Continued I F t small bounded
                (subst
                  (λ g.
                    Part I F t small bounded s.settled m.primary_index
                      (current g m.compaction_push))
                  now
                  s.part)
                o
                p
            → IsSound I F t small bounded
                (record m { primary_index = p; merge = after_part rest rs o })
                d
        by_part none after = record {
          stack = s.stack;
          logs = s.logs;
          settled = p;
          base = s.base;
          known = merge_pushed-TablesInv I F t small bounded s.known c.table rest rs p e after;
          part =
              subst (Part I F t small bounded p p)
                (sym (
                  quiet I F t small bounded s
                    (merge_alone I F t small bounded s (c.table ∷ rest) rs e)))
                refl;
          below = s.below;
        }
        by_part (some c') after = record {
          stack = s.stack;
          logs = s.logs;
          settled = s.settled;
          base = s.base;
          known =
              subst (Known I F t small bounded s s.settled)
                (e ∙ ap (λ k. merge_pushing (k ∷ rest) rs) (sym after.0)) s.known;
          part = after.1;
          below = s.below;
        }

    -- While a compaction goes on
    module _ (on : m.compacting ≡ true) where
      pub idle : (o : Option PushCall) → current m.merge o ≡ o
      idle o = not_merging m.merge o s.known.merged m.pending_readers m.compacting on s.known.phase

      settled_compaction : m.compaction_push ≡ none → m.primary_index ≡ s.settled
      settled_compaction none_now =
          subst (Part I F t small bounded s.settled m.primary_index)
            (idle m.compaction_push ∙ none_now) s.part

      pub compacted_begins-IsSound :
          (r : ℕ) (c : PushCall) (p : BlockMap I F)
          → m.compaction_push ≡ none
          → is_member r (d.recent ++ d.older) ≡ false
          → begin_push I F r m.primary_index ≡ some (c, p)
          → IsSound I F t small bounded
              (record m { primary_index = p; compaction_push = some c })
              (apply (pushes_compacted r) d)
      unfolding apply
      compacted_begins-IsSound r c p none_now new run =
          let at : d.older ≡ s.base =
            subst (λ o. Below o m.compacting d.recent d.older s.base) none_now s.below in
          let new' = ap (λ k. is_member r (d.recent ++ k)) (sym at) ∙ new in
          let same = settled_compaction none_now in
          let (named, pushing) =
            begun I F t small bounded s.settled r c p s.known.consistent
              (compacted-Unknown I F t small bounded s.known r on new')
              (ap (λ b. begin_push I F r b) (sym same) ∙ run) in
          record {
            stack = s.stack;
            logs = s.logs;
            settled = s.settled;
            base = s.base;
            known = s.known;
            part = subst (Part I F t small bounded s.settled p) (sym (idle (some c))) pushing;
            below = (
              (λ i. sym named i ∷ at i),
              ap (λ k. is_member k (d.recent ++ s.base)) named ∙ new',
              on,
            );
          }

      pub compacted_continues-IsSound :
          (c : PushCall) (o : Option PushCall) (p : BlockMap I F)
          → m.compaction_push ≡ some c
          → continue_push I F (t c.table).reader c m.primary_index ≡ some (o, p)
          → IsSound I F t small bounded (record m { primary_index = p; compaction_push = o }) d
      compacted_continues-IsSound c o p call run = by_part o (continued c o p q run)
        where
          q : IsPushing I F t small bounded s.settled c m.primary_index
          q =
              subst (Part I F t small bounded s.settled m.primary_index)
                (idle m.compaction_push ∙ call) s.part

          b : Below (some c) m.compacting d.recent d.older s.base
          b = subst (λ o. Below o m.compacting d.recent d.older s.base) call s.below

          by_part :
              (o : Option PushCall)
              → Continued I F t small bounded q o p
              → IsSound I F t small bounded (record m { primary_index = p; compaction_push = o }) d
          by_part none after = record {
            stack = s.stack;
            logs = s.logs;
            settled = p;
            base = c.table ∷ s.base;
            known = compacted_pushed-TablesInv I F t small bounded s.known c.table p on b.1 after;
            part = subst (Part I F t small bounded p p) (sym (idle none)) refl;
            below = b.0;
          }
          by_part (some c') after = record {
            stack = s.stack;
            logs = s.logs;
            settled = s.settled;
            base = s.base;
            known = s.known;
            part = subst (Part I F t small bounded s.settled p) (sym (idle (some c'))) after.1;
            below = (
              b.0 ∙ ap (λ k. k ∷ s.base) (sym after.0),
              ap (λ k. is_member k (d.recent ++ s.base)) after.0 ∙ b.1,
              b.2,
            );
          }

      pub unused_removed-IsSound :
          (r iv : ℕ) (p : BlockMap I F)
          → m.compaction_push ≡ none
          → m.primary_index.index_map r ≡ some iv
          → ((b : ℕ) → I.get m.primary_index.range_map b ≢ some iv)
          → remove_table I F r m.primary_index ≡ some p
          → IsSound I F t small bounded (record m { primary_index = p }) d
      unused_removed-IsSound r iv p none_now number dead gone =
          let known =
            subst (λ b. Known I F t small bounded s b (settle m.merge))
              (sym (settled_compaction none_now)) s.known in
          record {
            stack = s.stack;
            logs = s.logs;
            settled = p;
            base = s.base;
            known = unused_removed-TablesInv I F t small bounded known r iv p number dead gone;
            part =
                subst (Part I F t small bounded p p) (sym (idle m.compaction_push ∙ none_now)) refl;
            below = s.below;
          }
