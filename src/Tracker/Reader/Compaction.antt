-- ===== src/Tracker/Reader/Compaction.antt =====
-- Compactions of internal/tracker/reader.go keep what holds of the tables, and what readers are shown follows from it.
use logblock.Prelude.{
  ℕ, ◌^◌, ◌≤◌, ◌<◌, ◌≡◌, ◌≢◌, refl, sym, ap, ◌∙◌, Bool, true, false, none, some, List, [], ◌∷◌,
  ◌++◌, arith, if◌then◌else◌, length, length-append, append_assoc, append-nil,
}
use logblock.Readers.Views.{SoundReader}
use logblock.RangeMap.Index.{RangeIndex}
use logblock.BlockMap.{FreeSet, BlockMap, is_member, find, remove_table}
use logblock.Tracker.Reader.{Merge, merge_idle, merge_pushing, merge_adding, merge_waiting, reverse}
use logblock.Tracker.Reader.Names.{
  first, first-append, first_again, or_first, Distinct, is_member-append,
}
use logblock.Tracker.Reader.Pushes.{IsIndexed, Unknown, remove_table_lem}
use logblock.Tracker.Reader.Invariant.{Phase, H, TablesInv}

pub Distinct-insert :
    (xs ys : List ℕ) (r : ℕ)
    → Distinct (xs ++ ys)
    → is_member r (xs ++ ys) ≡ false
    → Distinct (xs ++ r ∷ ys)
unfolding is_member
Distinct-insert [] ys r d new = (new, d)
Distinct-insert (x ∷ xs) ys r d new = (
  is_member-append x xs (r ∷ ys) ∙ ground (arith, d.0, new, is_member-append x xs ys),
  Distinct-insert xs ys r d.1 (ground (arith, new)),
)

module _ (I : RangeIndex) (F : FreeSet) {block_size num_blocks : ℕ} (t : ℕ → SoundReader block_size)
    (small : num_blocks < 2 ^ 63) (bounded : (x b : ℕ) → num_blocks ≤ b → (t x).view b ≡ none) where
  abbrev K : ℕ → ℕ → Bool
  K = H I F t small bounded

  module _ {pending : List ℕ} {primary : BlockMap I F} {compacting : Bool} {merge : Merge}
      {recent older : List ℕ}
      (v : TablesInv I F t small bounded pending primary compacting merge recent older) where
    -- A merge is never in progress while pending readers are none.
    Phase-compaction :
        (g : Merge)
        → pending ≡ []
        → Phase g v.merged pending compacting
        → Phase g [] pending true × (v.merged ≡ [])
    Phase-compaction merge_idle none_left h = (refl, h)
    Phase-compaction (merge_adding c rest rs) none_left h = absurd h
    Phase-compaction (merge_waiting g) none_left h = (refl, h)
    Phase-compaction (merge_pushing todo rs) none_left (c, extra, p, split, whole, left, long) =
        absurd (ground (arith, ap length (sym split ∙ none_left), length-append extra p, long))

    pub compaction_started-TablesInv :
        pending ≡ [] → TablesInv I F t small bounded pending primary true merge [] (recent ++ older)
    compaction_started-TablesInv none_left =
        let (phase, nothing) = Phase-compaction merge none_left v.phase in
        let all : recent ++ older ≡ v.merged ++ (v.indexed ++ older) =
          ap (λ k. k ++ older) (v.is_recent ∙ ap (λ k. k ++ v.indexed) none_left)
          ∙ sym (ap (λ k. k ++ (v.indexed ++ older)) nothing) in
        record {
          consistent = v.consistent;
          indexed = [];
          merged = [];
          is_recent = sym (ap (λ k. k ++ []) none_left);
          distinct = v.distinct;
          found = λ b. v.found b ∙ ap (λ k. first K k b) (sym all);
          unknown = λ x u. v.unknown x (ap (is_member x) (sym all) ∙ u);
          phase = phase;
          frozen = λ on. refl;
        }

    -- A compaction pushes tables while no merge is in progress.
    Phase-idle :
        (g : Merge) → compacting ≡ true → Phase g v.merged pending compacting → v.merged ≡ []
    Phase-idle merge_idle on h = h
    Phase-idle (merge_adding c rest rs) on h = absurd h
    Phase-idle (merge_waiting g) on h = h
    Phase-idle (merge_pushing todo rs) on h = absurd (ground (arith, h.0, on))

    compacted-bare : compacting ≡ true → v.merged ++ (v.indexed ++ older) ≡ older
    compacted-bare on =
        ap (λ k. k ++ (v.indexed ++ older)) (Phase-idle merge on v.phase)
        ∙ ap (λ k. k ++ older) (v.frozen on)

    pub compacted-Unknown :
        (r : ℕ) → compacting ≡ true → is_member r (recent ++ older) ≡ false → Unknown primary r
    compacted-Unknown r on new = v.unknown r (
        ap (is_member r) (compacted-bare on) ∙ ground (arith, is_member-append r recent older, new))

    pub compacted_pushed-TablesInv :
        (r : ℕ) (p : BlockMap I F)
        → compacting ≡ true
        → is_member r (recent ++ older) ≡ false
        → IsIndexed I F t small bounded primary r p
        → TablesInv I F t small bounded pending p compacting merge recent (r ∷ older)
    unfolding first is_member
    compacted_pushed-TablesInv r p on new done =
        let (good, finds, others) = done in
        let bare : v.merged ++ (v.indexed ++ r ∷ older) ≡ r ∷ older =
          ap (λ k. k ++ (v.indexed ++ r ∷ older)) (Phase-idle merge on v.phase)
          ∙ ap (λ k. k ++ r ∷ older) (v.frozen on) in
        record {
          consistent = good;
          indexed = v.indexed;
          merged = v.merged;
          is_recent = v.is_recent;
          distinct = Distinct-insert recent older r v.distinct new;
          found = λ b.
              finds b
              ∙ ap (λ o. if K r b then some r else o)
                  (v.found b ∙ ap (λ k. first K k b) (compacted-bare on))
              ∙ ap (λ k. first K k b) (sym bare);
          unknown = λ x u.
              let u' = ap (is_member x) (sym bare) ∙ u in
              others x (ground (arith, u'))
                (v.unknown x (ap (is_member x) (compacted-bare on) ∙ ground (arith, u')));
          phase = v.phase;
          frozen = v.frozen;
        }

    pub unused_removed-TablesInv :
        (r iv : ℕ) (p : BlockMap I F)
        → primary.index_map r ≡ some iv
        → ((b : ℕ) → I.get primary.range_map b ≢ some iv)
        → remove_table I F r primary ≡ some p
        → TablesInv I F t small bounded pending p compacting merge recent older
    unused_removed-TablesInv r iv p number dead done =
        let (good, finds, others) =
          remove_table_lem I F primary r iv p v.consistent number dead done in
        record {
          consistent = good;
          indexed = v.indexed;
          merged = v.merged;
          is_recent = v.is_recent;
          distinct = v.distinct;
          found = λ b. finds b ∙ v.found b;
          unknown = λ x u. others x (v.unknown x u);
          phase = v.phase;
          frozen = v.frozen;
        }

    Phase-done : (g : Merge) → Phase g v.merged pending compacting → Phase g v.merged pending false
    Phase-done merge_idle h = h
    Phase-done (merge_adding c rest rs) h = absurd h
    Phase-done (merge_waiting g) h = h
    Phase-done (merge_pushing todo rs) (c, extra, p, h, k, l, m) = (refl, extra, p, h, k, l, m)

    pub compaction_ended-TablesInv :
        TablesInv I F t small bounded pending primary false merge recent older
    compaction_ended-TablesInv = record {
      consistent = v.consistent;
      indexed = v.indexed;
      merged = v.merged;
      is_recent = v.is_recent;
      distinct = v.distinct;
      found = v.found;
      unknown = v.unknown;
      phase = Phase-done merge v.phase;
      frozen = λ on. absurd (ground (arith, on));
    }

    Phase-suffix :
        (g : Merge)
        → Phase g v.merged pending compacting
        → (xs : List ℕ) × (pending ≡ xs ++ v.merged)
    Phase-suffix merge_idle h = (pending, sym (ap (λ k. pending ++ k) h ∙ append-nil pending))
    Phase-suffix (merge_adding c rest rs) h = absurd h
    Phase-suffix (merge_waiting g) h =
        (pending, sym (ap (λ k. pending ++ k) h ∙ append-nil pending))
    Phase-suffix (merge_pushing todo rs) (c, extra, p, split, k, left, l) = (
      extra ++ reverse todo,
      split ∙ ap (λ k. extra ++ k) left ∙ sym (append_assoc extra (reverse todo) v.merged),
    )

    -- What the pending tables and the block map show
    pub shown_lem :
        (b : ℕ) → or_first (first K pending b) (find I F primary b) ≡ first K (recent ++ older) b
    shown_lem b =
        let (xs, split) = Phase-suffix merge v.phase in
        let below = v.indexed ++ older in
        ap (λ o. or_first (first K pending b) o) (v.found b ∙ first-append K b v.merged below)
        ∙ ap (λ k. or_first (first K k b) (or_first (first K v.merged b) (first K below b))) split
        ∙ first_again K b xs v.merged (first K below b)
        ∙ ap (λ k. or_first (first K k b) (first K below b)) (sym split)
        ∙ sym (first-append K b pending below)
        ∙ ap (λ k. first K k b)
            (sym (ap (λ k. k ++ older) v.is_recent ∙ append_assoc pending v.indexed older))
