-- ===== src/RangeMap/Extent/Tests.antt =====
-- Runs of the extent map of internal/rangemap/extent_range_map.go on the tree of sorted lists, and
-- the theorems at concrete inputs.
use logblock.Prelude.{
  ℕ, ◌+◌, ◌≡◌, refl, Bool, true, Option, none, some, [], ◌∷◌, arith, if◌then◌else◌, ℕ-comparable,
  add64, sub64,
}
use logblock.Prelude.OptionMonad.{◌>>=◌}
use logblock.RangeMap.{RangeValue, contains, overlaps}
use logblock.RangeMap.Spec.{in_range, NextMapped, NextHole, feed}
use logblock.RangeMap.RadixTree.{RadixTree}
use logblock.RangeMap.SortedTree.{sorted_tree, find, insert, erase, from_key, down_from, SortedList}
use logblock.RangeMap.Extent.{
  add, remove, get, next_key, next_empty, get_byte_range, remove_items, remove_item, insert_new,
  delete_item, truncate, end_item, overlapping, get_with_range, covering,
}
use logblock.RangeMap.Extent.Invariant.{IsValid}
use logblock.RangeMap.Extent.Update.{get-add, get-remove}
use logblock.RangeMap.Extent.Iterate.{iterate, iterate_items, first_key, continues, extend, clip}
use logblock.RangeMap.Extent.Iterate.Runs.{iterate_ranges}
use logblock.RangeMap.Extent.Iterate.All.{Shows, iterate_lem}
use logblock.RangeMap.Extent.Next.{next_key-NextMapped, next_empty-NextHole}

abbrev T : RadixTree ℕ
T = sorted_tree ℕ

-- [10, 20) ↦ 1 and [30, 35) ↦ 2
abbrev two : SortedList ℕ
two = (
  record { range = record { offset = 10; length = 10 }; value = 1 }
      ∷ record { range = record { offset = 30; length = 5 }; value = 2 }
      ∷ [],
  omega arith,
)

two-IsValid : IsValid (T.at two)
unfolding find
two-IsValid = record {
  key = λ j r h. ground arith;
  fits = λ j r h. ground arith;
  apart = λ j k r s hj hk lt. ground arith;
}

get-add_example :
    (m' : SortedList ℕ) × (add T two 15 20 3 ≡ some m')
    × IsValid (T.at m')
    × ((x : ℕ) → get T m' x ≡ (if in_range 15 20 x then some 3 else get T two x))
get-add_example = get-add T two two-IsValid 15 20 3 (omega arith)

get-remove_example :
    (m' : SortedList ℕ) × (remove T two 12 3 ≡ some m')
    × IsValid (T.at m')
    × ((x : ℕ) → get T m' x ≡ (if in_range 12 3 x then none else get T two x))
get-remove_example = get-remove T two two-IsValid 12 3 (omega arith)

next_key-NextMapped_example : NextMapped (get T two) 20 (next_key T two 20)
next_key-NextMapped_example = next_key-NextMapped T two two-IsValid 20

next_empty-NextHole_example : NextHole (get T two) 12 (next_empty T two 12)
next_empty-NextHole_example = next_empty-NextHole T two two-IsValid 12

count : ℕ → RangeValue ℕ → ℕ × Bool
count n r = (n + r.length, true)

iterate_lem_example :
    Shows T two two-IsValid 12 (iterate_ranges T two two-IsValid 12)
    × (iterate T count two 12 0 ≡ feed count 0 (iterate_ranges T two two-IsValid 12))
iterate_lem_example = iterate_lem T two two-IsValid count 12 0

run : Option ℕ
run = do
  m1 ← add T ([], tt) 10 10 1
  m2 ← add T m1 15 20 2
  m3 ← remove T m2 18 4
  some (iterate T count m3 0 0)

run_lem : run ≡ some 21
unfolding run add remove get_byte_range remove_items remove_item insert_new delete_item truncate
    end_item overlapping find insert erase from_key down_from count iterate iterate_items first_key
    continues extend contains overlaps get_with_range covering clip add64 sub64
run_lem = refl
