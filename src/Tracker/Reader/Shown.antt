-- ===== src/Tracker/Reader/Shown.antt =====
-- What a stack of readers of internal/tracker/reader.go shows
use logblock.Prelude.{
  ℕ, ◌≡◌, refl, inl, inr, Bool, Option, none, some, List, [], ◌∷◌, ◌++◌, if◌then◌else◌, map,
  Bool-cases,
}
use logblock.Readers.Views.{SoundReader}
use logblock.RangeMap.Index.{RangeIndex}
use logblock.BlockMap.{FreeSet, BlockMap, find}
use logblock.BlockMap.Push.{has_block}
use logblock.Tracker.Reader.{Layer, writer_layer, reader_layer, primary_layer}
use logblock.Tracker.Reader.History.{Layers}
use logblock.Tracker.Reader.Names.{or_first, first}

module _ (I : RangeIndex) (F : FreeSet) where
  -- What a stack of readers shows for a block: the log or the table that it is read from
  unfoldable pub shown :
      (ℕ → ℕ → Bool) → (ℕ → ℕ → Bool) → BlockMap I F → List Layer → ℕ → Option Layer
  shown has_log has_table primary [] b = none
  shown has_log has_table primary (writer_layer w ∷ ls) b =
      if has_log w b then some (writer_layer w) else shown has_log has_table primary ls b
  shown has_log has_table primary (reader_layer x ∷ ls) b =
      if has_table x b then some (reader_layer x) else shown has_log has_table primary ls b
  shown has_log has_table primary (primary_layer ∷ ls) b = elim (find I F primary b) [
    | none ↦ shown has_log has_table primary ls b
    | some x ↦ some (reader_layer x)
  ]

-- The blocks that a table has
abbrev pub table_has : {block_size : ℕ} → (ℕ → SoundReader block_size) → ℕ → ℕ → Bool
table_has t x b = has_block ((t x).view b)

abbrev pub of_table : Option ℕ → Option Layer
of_table none = none
of_table (some x) = some (reader_layer x)

abbrev pub of_log : Option ℕ → Option Layer → Option Layer
of_log none below = below
of_log (some w) below = some (writer_layer w)

-- What the device has for a block: the newest log that has it, or else the newest table
unfoldable pub newest : (ℕ → ℕ → Bool) → (ℕ → ℕ → Bool) → Layers → ℕ → Option Layer
newest has_log has_table d b =
    of_log (first has_log d.logs b) (of_table (first has_table (d.recent ++ d.older) b))

module _ (I : RangeIndex) (F : FreeSet) (has_log has_table : ℕ → ℕ → Bool) (primary : BlockMap I F)
    (b : ℕ) where
  pub shown-tables :
      (rs : List ℕ)
      → shown I F has_log has_table primary (map reader_layer rs ++ primary_layer ∷ []) b
        ≡ of_table (or_first (first has_table rs b) (find I F primary b))
  unfolding shown first
  shown-tables [] = elim_shown (find I F primary b) refl
    where
      elim_shown :
          (o : Option ℕ)
          → find I F primary b ≡ o
          → shown I F has_log has_table primary (primary_layer ∷ []) b
            ≡ of_table (find I F primary b)
      elim_shown none e = rw (e, shown) refl
      elim_shown (some x) e = rw (e, shown) refl
  shown-tables (x ∷ rs) = elim (Bool-cases (has_table x b)) [
    | inl h ↦ rw h refl
    | inr h ↦ rw h (shown-tables rs)
  ]

  pub shown-logs :
      (ws : List ℕ) (ls : List Layer)
      → shown I F has_log has_table primary (map writer_layer ws ++ ls) b
        ≡ of_log (first has_log ws b) (shown I F has_log has_table primary ls b)
  unfolding shown first
  shown-logs [] ls = refl
  shown-logs (w ∷ ws) ls = elim (Bool-cases (has_log w b)) [
    | inl h ↦ rw h refl
    | inr h ↦ rw h (shown-logs ws ls)
  ]
