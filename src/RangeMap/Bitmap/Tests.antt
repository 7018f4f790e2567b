-- ===== src/RangeMap/Bitmap/Tests.antt =====
-- The theorems on the bitmap range map at a concrete map.
use logblock.Prelude.{ℕ, ◌≡◌, Option, some, arith}
use logblock.RangeMap.Spec.{NextMapped, NextHole}
use logblock.RangeMap.BitFunctions.{bitmap_function, bit_set_function}
use logblock.RangeMap.Bitmap.{BitmapRangeMap, new_map, add, get, next_key, next_empty}
use logblock.RangeMap.Bitmap.Add.{Added, new_map-IsValid, add-Added}
use logblock.RangeMap.Bitmap.Next.{next_key_lem}
use logblock.RangeMap.Bitmap.Empty.{next_empty_lem}

-- A range over three leaves
abbrev three_leaves : BitmapRangeMap bitmap_function bit_set_function ℕ
three_leaves =
    add bitmap_function bit_set_function 0 (new_map bitmap_function bit_set_function) 250 300 7

add-Added_example :
    Added bitmap_function bit_set_function
      (new_map bitmap_function bit_set_function)
      250
      300
      7
      three_leaves
add-Added_example =
    add-Added bitmap_function bit_set_function 0 (new_map bitmap_function bit_set_function) 250 300
      7 (new_map-IsValid bitmap_function bit_set_function) (omega arith)

next_key_lem_example :
    (r : Option ℕ) × (next_key bitmap_function bit_set_function three_leaves 3 ≡ some r)
    × NextMapped (get bitmap_function bit_set_function three_leaves) 3 r
next_key_lem_example =
    next_key_lem bitmap_function bit_set_function three_leaves add-Added_example.0 3

next_empty_lem_example :
    (n : ℕ) × (next_empty bitmap_function bit_set_function three_leaves 260 ≡ some n)
    × NextHole (get bitmap_function bit_set_function three_leaves) 260 n
next_empty_lem_example =
    next_empty_lem bitmap_function bit_set_function three_leaves add-Added_example.0 260
