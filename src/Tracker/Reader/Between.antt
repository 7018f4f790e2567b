-- ===== src/Tracker/Reader/Between.antt =====
-- What internal/tracker/reader.go shows between two parts of a call of PushReader
use logblock.Prelude.{
  ℕ, ◌^◌, ◌≤◌, ◌<◌, ◌≡◌, refl, sym, ap, ◌∙◌, subst, ◌⊎◌, inl, inr, Bool, true, false, Option, none,
  some, List, [], ◌∷◌, ◌++◌, if◌then◌else◌, append_assoc, append-nil, Bool-cases,
}
use logblock.Readers.Views.{SoundReader}
use logblock.RangeMap.Index.{RangeIndex}
use logblock.BlockMap.{FreeSet, PushCall, find}
use logblock.BlockMap.Parts.{find-part}
use logblock.Tracker.Reader.{
  Merge, merge_idle, merge_pushing, merge_adding, merge_waiting, reverse, Reader,
}
use logblock.Tracker.Reader.History.{Layers}
use logblock.Tracker.Reader.Names.{first, or_first, first-append}
use logblock.Tracker.Reader.Invariant.{Phase, H}
use logblock.Tracker.Reader.Compaction.{shown_lem}
use logblock.Tracker.Reader.State.{settle, current, Below, Part, IsSound, quiet, merge_alone}

module _ (has : ℕ → ℕ → Bool) (b : ℕ) where
  -- Names before and after one that has the block
  first-has :
      (xs ys : List ℕ) (x : ℕ) → has x b ≡ true → (y : ℕ) × (first has (xs ++ x ∷ ys) b ≡ some y)
  unfolding first
  first-has [] ys x h = (x, rw h refl)
  first-has (z ∷ xs) ys x h = elim (Bool-cases (has z b)) [
    | inl k ↦ (z, rw k refl)
    | inr k ↦ let (y, e) = first-has xs ys x h in (y, rw k e)
  ]

  first-skip :
      (xs ys : List ℕ) (x : ℕ)
      → has x b ≡ false
      → first has (xs ++ ys) b ≡ first has (xs ++ x ∷ ys) b
  unfolding first
  first-skip [] ys x h = sym (rw h refl)
  first-skip (z ∷ xs) ys x h = ap (λ o. if has z b then some z else o) (first-skip xs ys x h)

  first-found :
      (xs ys : List ℕ) (x : ℕ)
      → has x b ≡ true
      → or_first (first has xs b) (some x) ≡ first has (xs ++ x ∷ ys) b
  unfolding first
  first-found xs ys x h =
      sym (first-append has b xs (x ∷ ys) ∙ ap (λ o. or_first (first has xs b) o) (rw h refl))

module _ (I : RangeIndex) (F : FreeSet) {block_size num_blocks : ℕ} (t : ℕ → SoundReader block_size)
    (small : num_blocks < 2 ^ 63) (bounded : (x b : ℕ) → num_blocks ≤ b → (t x).view b ≡ none)
    {m : Reader I F} {d : Layers} (s : IsSound I F t small bounded m d) (b : ℕ) where
  abbrev has : ℕ → ℕ → Bool
  has = H I F t small bounded

  abbrev tables_show : Option ℕ
  tables_show = or_first (first has m.pending_readers b) (find I F m.primary_index b)

  -- The table of a merge that goes on is still pending.
  pending-has :
      (c : PushCall) (rest rs : List ℕ)
      → m.merge ≡ merge_adding c rest rs
      → has c.table b ≡ true
      → (y : ℕ) × (first has m.pending_readers b ≡ some y)
  unfolding reverse
  pending-has c rest rs now h =
      let (off, extra, p, split, whole, left, long) =
        subst (λ g. Phase g s.known.merged m.pending_readers m.compacting) (ap settle now)
          s.known.phase in
      let (y, e) = first-has has b (extra ++ reverse rest) s.known.merged c.table h in
      let at : m.pending_readers ≡ (extra ++ reverse rest) ++ c.table ∷ s.known.merged =
        split
        ∙ ap (λ k. extra ++ k) (left ∙ append_assoc (reverse rest) (c.table ∷ []) s.known.merged)
        ∙ sym (append_assoc extra (reverse rest) (c.table ∷ s.known.merged)) in
      (y, ap (λ k. first has k b) at ∙ e)

  -- All tables count, but that of a compaction's call that goes on may not count yet in a block that it has.
  abbrev pub TablesShow : Type 0
  TablesShow =
      (tables_show ≡ first has (d.recent ++ d.older) b)
      ⊎ ((c : PushCall) × (base : List ℕ) × (m.compaction_push ≡ some c)
          × (d.older ≡ c.table ∷ base)
          × (has c.table b ≡ true)
          × (tables_show ≡ first has (d.recent ++ base) b))

  settled_shows :
      or_first (first has m.pending_readers b) (find I F s.settled b)
      ≡ first has (d.recent ++ s.base) b
  settled_shows = shown_lem I F t small bounded s.known b

  abbrev by_find :
      find I F m.primary_index b ≡ find I F s.settled b
      → tables_show ≡ first has (d.recent ++ s.base) b
  by_find e = ap (λ o. or_first (first has m.pending_readers b) o) e ∙ settled_shows

  below_now :
      (o : Option PushCall) → m.compaction_push ≡ o → Below o m.compacting d.recent d.older s.base
  below_now o call = subst (λ o. Below o m.compacting d.recent d.older s.base) call s.below

  without_call :
      m.compaction_push ≡ none → tables_show ≡ first has (d.recent ++ s.base) b → TablesShow
  without_call no_call e =
      inl (e ∙ ap (λ k. first has (d.recent ++ k) b) (sym (below_now none no_call)))

  compaction_shows :
      (o : Option PushCall)
      → m.compaction_push ≡ o
      → Part I F t small bounded s.settled m.primary_index o
      → TablesShow
  compaction_shows none call part = without_call call (by_find (ap (λ k. find I F k b) part))
  compaction_shows (some c) call part =
      let (at, fresh, on) = below_now (some c) call in
      let frozen : d.recent ≡ m.pending_readers =
        s.known.is_recent
        ∙ ap (λ k. m.pending_readers ++ k) (s.known.frozen on)
        ∙ append-nil m.pending_readers in
      elim (find-part I F t small bounded part b) [
        | inr (h, e) ↦ inl (
            ap (λ o. or_first (first has m.pending_readers b) o) e
            ∙ first-found has b m.pending_readers s.base c.table h
            ∙ (λ i. first has (sym frozen i ++ sym at i) b))
        | inl e ↦ elim (Bool-cases (has c.table b)) [
          | inl h ↦ inr (c, s.base, call, at, h, by_find e)
          | inr h ↦ inl (
              by_find e
              ∙ first-skip has b d.recent s.base c.table h
              ∙ ap (λ k. first has (d.recent ++ k) b) (sym at))
        ]
      ]

  pub tables_show_lem : TablesShow
  tables_show_lem = by_merge m.merge refl s.part
    where
      by_merge :
          (g : Merge)
          → m.merge ≡ g
          → Part I F t small bounded s.settled m.primary_index (current g m.compaction_push)
          → TablesShow
      by_merge merge_idle now part = compaction_shows m.compaction_push refl part
      by_merge (merge_waiting g) now part = compaction_shows m.compaction_push refl part
      by_merge (merge_pushing todo rs) now part = compaction_shows m.compaction_push refl part
      by_merge (merge_adding c rest rs) now part =
          without_call
            (quiet I F t small bounded s
              (merge_alone I F t small bounded s (c.table ∷ rest) rs (ap settle now)))
            (elim (find-part I F t small bounded part b) [
              | inl e ↦ by_find e
              | inr (h, e) ↦
                  let (y, k) = pending-has c rest rs now h in
                  (λ i. or_first (k i) (find I F m.primary_index b))
                  ∙ (λ i. or_first (sym k i) (find I F s.settled b))
                  ∙ settled_shows
            ])
