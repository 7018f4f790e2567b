-- ===== src/Tracker/Reader/State.antt =====
-- What holds of a state of internal/tracker/reader.go, also in the middle of a call of PushReader
use logblock.Prelude.{
  ℕ, ◌^◌, ◌≤◌, ◌<◌, ◌≡◌, refl, sym, ap, ◌∙◌, subst, Bool, true, false, Option, none, some, List, [],
  ◌∷◌, ◌++◌, arith, map,
}
use logblock.Readers.Views.{SoundReader}
use logblock.Adaptor.{BlockHoleReader}
use logblock.RangeMap.Index.{RangeIndex}
use logblock.BlockMap.{FreeSet, BlockMap, PushCall, is_member}
use logblock.BlockMap.Parts.{IsPushing}
use logblock.Tracker.Reader.{
  Merge, merge_idle, merge_pushing, merge_waiting, merge_adding, writer_layer, reader_layer,
  primary_layer, Reader,
}
use logblock.Tracker.Reader.History.{Layers}
use logblock.Tracker.Reader.Names.{is_member-append}
use logblock.Tracker.Reader.Invariant.{Phase, TablesInv}

-- A merge as it was before the call of PushReader that goes on
abbrev pub settle : Merge → Merge
settle merge_idle = merge_idle
settle (merge_pushing todo rs) = merge_pushing todo rs
settle (merge_adding c rest rs) = merge_pushing (c.table ∷ rest) rs
settle (merge_waiting g) = merge_waiting g

-- The call of PushReader that goes on, of a merge or else of a compaction
abbrev pub current : Merge → Option PushCall → Option PushCall
current merge_idle o = o
current (merge_pushing todo rs) o = o
current (merge_adding c rest rs) o = some c
current (merge_waiting g) o = o

abbrev pub or_part :
    {I : RangeIndex} {F : FreeSet}
    → Option (Option PushCall × BlockMap I F)
    → Option PushCall × BlockMap I F
    → Option PushCall × BlockMap I F
or_part none k = k
or_part (some q) k = q

-- The tables without the one that a compaction is about to push
abbrev pub Below : Option PushCall → Bool → List ℕ → List ℕ → List ℕ → Type 0
Below none on recent older base = older ≡ base
Below (some c) on recent older base =
    (older ≡ c.table ∷ base) × (is_member c.table (recent ++ base) ≡ false) × (on ≡ true)

pub Below-new :
    (o : Option PushCall) (on : Bool) (recent older base : List ℕ) (r : ℕ)
    → Below o on recent older base
    → is_member r (recent ++ older) ≡ false
    → (is_member r (recent ++ base) ≡ false) × Below o on (r ∷ recent) older base
unfolding is_member
Below-new none on recent older base r b new = (ap (λ k. is_member r (recent ++ k)) (sym b) ∙ new, b)
Below-new (some c) on recent older base r b new =
    let wide =
      sym (is_member-append r recent (c.table ∷ base))
      ∙ ap (λ k. is_member r (recent ++ k)) (sym b.0)
      ∙ new in
    (is_member-append r recent base ∙ ground (arith, wide), (b.0, ground (arith, wide, b.1), b.2))

none_called :
    (o : Option PushCall) (recent older base : List ℕ) → Below o false recent older base → o ≡ none
none_called none recent older base b = refl
none_called (some c) recent older base b = absurd (ground (arith, b.2))

pub not_merging :
    (g : Merge) (o : Option PushCall) (merged pending : List ℕ) (on : Bool)
    → on ≡ true
    → Phase (settle g) merged pending on
    → current g o ≡ o
not_merging merge_idle o merged pending on e h = refl
not_merging (merge_waiting g) o merged pending on e h = refl
not_merging (merge_pushing todo rs) o merged pending on e h = refl
not_merging (merge_adding c rest rs) o merged pending on e h = absurd (ground (arith, h.0, e))

module _ (I : RangeIndex) (F : FreeSet) {block_size num_blocks : ℕ} (t : ℕ → SoundReader block_size)
    (small : num_blocks < 2 ^ 63) (bounded : (x b : ℕ) → num_blocks ≤ b → (t x).view b ≡ none) where
  abbrev pub tables : ℕ → BlockHoleReader
  tables x = (t x).reader

  -- The block map and what it was before the call that goes on
  abbrev pub Part : BlockMap I F → BlockMap I F → Option PushCall → Type 0
  Part settled primary none = primary ≡ settled
  Part settled primary (some c) = IsPushing I F t small bounded settled c primary

  pub record IsSound (m : Reader I F) (d : Layers) : Type 0 where
    pub stack :
        m.reader_stack
        ≡ map writer_layer m.writers ++ (map reader_layer m.pending_readers ++ primary_layer ∷ [])
    pub logs : m.writers ≡ d.logs
    pub settled : BlockMap I F
    pub base : List ℕ
    pub known :
        TablesInv I F t small bounded m.pending_readers settled m.compacting
          (settle m.merge)
          d.recent
          base
    pub part : Part settled m.primary_index (current m.merge m.compaction_push)
    pub below : Below m.compaction_push m.compacting d.recent d.older base

  module _ {m : Reader I F} {d : Layers} (s : IsSound m d) where
    abbrev pub Known : BlockMap I F → Merge → Type 0
    Known b g = TablesInv I F t small bounded m.pending_readers b m.compacting g d.recent s.base

    pub quiet : m.compacting ≡ false → m.compaction_push ≡ none
    quiet off =
        none_called m.compaction_push d.recent d.older s.base
          (subst (λ on. Below m.compaction_push on d.recent d.older s.base) off s.below)

    -- A merge that calls PushReader excludes a compaction.
    pub merge_alone :
        (todo rs : List ℕ) → settle m.merge ≡ merge_pushing todo rs → m.compacting ≡ false
    merge_alone todo rs e =
        (subst (λ g. Phase g s.known.merged m.pending_readers m.compacting) e s.known.phase).0

    pub settled_now :
        (g : Merge) (o : Option PushCall)
        → m.merge ≡ g
        → m.compaction_push ≡ o
        → current g o ≡ none
        → m.primary_index ≡ s.settled
    settled_now g o at call none_now =
        subst (Part s.settled m.primary_index) ((λ i. current (at i) (call i)) ∙ none_now) s.part
