-- ===== src/RangeMap/Extent.antt =====
-- internal/rangemap/extent_range_map.go: a map from uint64 keys to values, kept as disjoint extents
-- in a radix tree. A method that panics returns `none`. A callback that stops an iteration is a
-- recursion over the items that the iteration would visit.
pub mod Invariant
pub mod Carve
pub mod Remove
pub mod Update
pub mod Next
pub mod Iterate
mod Tests
pub mod Lookup
use logblock.Prelude.{
  ℕ, ◌-◌, ◌≤◌, Bool, true, false, ◌&&◌, not, Option, none, some, List, [], ◌∷◌, ltb, leb, ◌==◌,
  if◌then◌else◌, add64, sub64, Comparable,
}
use logblock.Prelude.OptionMonad.{◌>>=◌}
use logblock.RangeMap.{Range, RangeValue, contains, overlaps}
use logblock.RangeMap.RadixTree.{RadixTree}

-- The callbacks, over the items that are visited.
module _ {V : Type 0} where
  unfoldable pub first_offset : List (RangeValue V) → Option ℕ
  first_offset [] = none
  first_offset (ie ∷ items) = some ie.offset

  unfoldable pub last_end : List (RangeValue V) → ℕ
  last_end [] = 0
  last_end (ie ∷ items) = add64 ie.offset ie.length

  unfoldable pub overlapping : Range → ℕ → List (RangeValue V) → List (RangeValue V)
  overlapping r end [] = []
  overlapping r end (ie ∷ items) =
      let rest = overlapping r end items in
      if ie.offset == end then rest else if not (overlaps r ie.range) then [] else ie ∷ rest

  unfoldable pub covering : ℕ → List (RangeValue V) → Option (RangeValue V)
  covering offset [] = none
  covering offset (ie ∷ items) = if contains ie.range offset then some ie else none

  -- The second iteration of `NextEmpty`.
  unfoldable pub skip_adjacent : ℕ → List (RangeValue V) → ℕ
  skip_adjacent next [] = next
  skip_adjacent next (ie ∷ items) =
      let rest = skip_adjacent (add64 ie.offset ie.length) items in
      if not (contains ie.range next) then next else rest

module _ {V : Type 0} (T : RadixTree V) where
  open T use {
    Tree, ascend, descend, ascend_greater_or_equal, descend_less_or_equal, replace_or_insert,
    delete,
  }

  -- `Begin`; `none` is `ok == false`.
  unfoldable pub begin : Tree → Option ℕ
  begin m = first_offset (ascend m)

  -- `End`
  unfoldable pub map_end : Tree → ℕ
  map_end m = last_end (descend m)

  unfoldable pub get_byte_range : Tree → ℕ → ℕ → List (RangeValue V)
  get_byte_range m start len =
      let end = add64 start len in
      overlapping (record { offset = start; length = len }) end (descend_less_or_equal end m)

  unfoldable pub get_with_range : Tree → ℕ → Option (RangeValue V)
  get_with_range m offset = covering offset (descend_less_or_equal offset m)

  unfoldable pub get : Tree → ℕ → Option V
  get m offset = elim (get_with_range m offset) [ none ↦ none | some ie ↦ some ie.value ]

  unfoldable pub next_key : Tree → ℕ → Option ℕ
  next_key m offset = elim (get m offset) [
    | some v ↦ some offset
    | none ↦ first_offset (ascend_greater_or_equal offset m)
  ]

  unfoldable pub next_empty : Tree → ℕ → ℕ
  next_empty m offset = elim (get_with_range m offset) [
    | none ↦ offset
    | some ie ↦
        let next = add64 ie.offset ie.length in
        if next == offset then next else skip_adjacent next (ascend_greater_or_equal next m)
  ]

  -- `ReplaceOrInsert` and the panic on an old entry.
  unfoldable pub insert_new : RangeValue V → Tree → Option Tree
  insert_new item m =
      let (old, m') = replace_or_insert item m in elim old [ none ↦ some m' | some _ ↦ none ]

  -- `Delete` and its panic. An item is stored once, under its key, so the item that comes back is
  -- the same pointer exactly if there is one.
  unfoldable pub delete_item : RangeValue V → Tree → Option Tree
  delete_item ie m = let (old, m') = delete ie m in elim old [ none ↦ none | some _ ↦ some m' ]

  -- `ie.Length = length` through the pointer that the tree holds: the item at its key changes.
  unfoldable pub truncate : RangeValue V → ℕ → Tree → Tree
  truncate ie len m =
      (replace_or_insert (record ie { range = record { offset = ie.offset; length = len } }) m).1

  -- What the old item has from `end` on.
  unfoldable pub end_item : RangeValue V → ℕ → RangeValue V
  end_item ie end = record {
    range = record { offset = end; length = sub64 (add64 ie.offset ie.length) end };
    value = ie.value;
  }

  -- The loop body of `Remove`.
  unfoldable pub remove_item : ℕ → ℕ → RangeValue V → Tree → Option Tree
  remove_item offset end ie m =
      let ie_end = add64 ie.offset ie.length in
      if ltb ie.offset offset
      then (do
        m' ← (if ltb end ie_end then insert_new (end_item ie end) m else some m)
        some (truncate ie (sub64 offset ie.offset) m'))
      else if ltb end ie_end
      then (do m' ← insert_new (end_item ie end) m; delete_item ie m')
      else delete_item ie m

  unfoldable pub remove_items : ℕ → ℕ → List (RangeValue V) → Tree → Option Tree
  remove_items offset end [] m = some m
  remove_items offset end (ie ∷ items) m = do
    m' ← remove_item offset end ie m
    remove_items offset end items m'

  -- The tests `offset < 0` and `length < 0` never hold of a uint64.
  unfoldable pub remove : Tree → ℕ → ℕ → Option Tree
  remove m offset len =
      if len == 0
      then some m
      else remove_items offset (add64 offset len) (get_byte_range m offset len) m

  unfoldable pub add : Tree → ℕ → ℕ → V → Option Tree
  add m offset len value = if len == 0 then some m else do
    m' ← remove m offset len
    insert_new (record { range = record { offset = offset; length = len }; value = value }) m'
