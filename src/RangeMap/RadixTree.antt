-- ===== src/RangeMap/RadixTree.antt =====
-- The radix tree of github.com/akmistry/go-util, which internal/rangemap/extent_range_map.go
-- stores its extents in: an ordered index by the item's key, `Offset`. It is not part of the
-- repository, so it is a parameter: its operations, and the documented behaviour of an ordered
-- index as laws. `at` is the view that the laws are stated by, and the code never calls it.
use logblock.Prelude.{ℕ, suc, ◌≤◌, ◌<◌, ◌≡◌, Option, none, some, List, [], ◌∷◌, ◌==◌, if◌then◌else◌}
use logblock.RangeMap.{RangeValue}

module _ {V : Type 0} (at : ℕ → Option (RangeValue V)) where
  -- `items` are the items with a key below `b`, in descending order of keys.
  abbrev pub Descending : ℕ → List (RangeValue V) → Type 0
  Descending b [] = (j : ℕ) → j < b → at j ≡ none
  Descending b (r ∷ items) =
      (r.offset < b)
      × (at r.offset ≡ some r)
      × ((j : ℕ) → r.offset < j → j < b → at j ≡ none)
      × Descending r.offset items

  -- `items` are the items with a key from `a` on, in ascending order of keys.
  abbrev pub Ascending : ℕ → List (RangeValue V) → Type 0
  Ascending a [] = (j : ℕ) → a ≤ j → at j ≡ none
  Ascending a (r ∷ items) =
      (a ≤ r.offset)
      × (at r.offset ≡ some r)
      × ((j : ℕ) → a ≤ j → j < r.offset → at j ≡ none)
      × Ascending (suc r.offset) items

pub record RadixTree (V : Type 0) : Type 1 where
  pub Tree : Type 0
  pub empty : Tree
  pub at : Tree → ℕ → Option (RangeValue V)
  -- The item that had the key, and the tree with the new item.
  pub replace_or_insert : RangeValue V → Tree → Option (RangeValue V) × Tree
  -- The item that had the key, and the tree without it.
  pub delete : RangeValue V → Tree → Option (RangeValue V) × Tree
  -- The items in the order in which an iteration visits them.
  pub ascend : Tree → List (RangeValue V)
  pub ascend_greater_or_equal : ℕ → Tree → List (RangeValue V)
  pub descend_less_or_equal : ℕ → Tree → List (RangeValue V)
  pub descend : Tree → List (RangeValue V)
  pub at-empty : (j : ℕ) → at empty j ≡ none
  pub old-insert : (r : RangeValue V) (t : Tree) → (replace_or_insert r t).0 ≡ at t r.offset
  pub at-insert :
      (r : RangeValue V) (t : Tree) (j : ℕ)
      → at (replace_or_insert r t).1 j ≡ (if r.offset == j then some r else at t j)
  pub old-delete : (r : RangeValue V) (t : Tree) → (delete r t).0 ≡ at t r.offset
  pub at-delete :
      (r : RangeValue V) (t : Tree) (j : ℕ)
      → at (delete r t).1 j ≡ (if r.offset == j then none else at t j)
  pub ascend-Ascending : (t : Tree) → Ascending (at t) 0 (ascend t)
  pub ascend_greater_or_equal-Ascending :
      (k : ℕ) (t : Tree) → Ascending (at t) k (ascend_greater_or_equal k t)
  pub descend_less_or_equal-Descending :
      (k : ℕ) (t : Tree) → Descending (at t) (suc k) (descend_less_or_equal k t)
  -- A key is a uint64.
  pub descend-Descending :
      (t : Tree) (b : ℕ) → ((j : ℕ) → b ≤ j → at t j ≡ none) → Descending (at t) b (descend t)
