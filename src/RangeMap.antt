-- ===== src/RangeMap.antt =====
-- internal/rangemap/range_map.go: ranges of uint64 keys, and ranges with a value. The children
-- are the two implementations and what they take from third-party packages.
pub mod Spec
pub mod RadixTree
pub mod SortedTree
pub mod Extent
pub mod BitSets
pub mod BitFunctions
pub mod Bitmap
pub mod Index
use logblock.Prelude.{ℕ, Bool, ◌&&◌, ◌||◌, ltb, leb, add64}

pub record Range : Type 0 where
  pub offset : ℕ
  pub length : ℕ

unfoldable pub range_end : Range → ℕ
range_end r = add64 r.offset r.length

unfoldable pub contains : Range → ℕ → Bool
contains r off = leb r.offset off && ltb off (add64 r.offset r.length)

unfoldable pub overlaps : Range → Range → Bool
overlaps r other = contains r other.offset || contains other r.offset

-- The embedded `Range` lends its fields, as in Go.
pub record RangeValue (V : Type 0) : Type 0 where
  pub range : Range
  pub open range use *
  pub value : V
