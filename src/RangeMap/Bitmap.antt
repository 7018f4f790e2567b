-- ===== src/RangeMap/Bitmap.antt =====
-- internal/rangemap/bitmap_range_map.go: a map from keys to values in leaves of 256 keys. The bit sets are
-- parameters, and `zero` is the zero value of Go. A Go map of leaves is a function.
pub mod Invariant
pub mod Leaves
pub mod Keeps
pub mod Add
pub mod Next
pub mod Empty
mod Tests
use logblock.Prelude.{
  ℕ, zero, suc, ◌+◌, ◌-◌, ◌*◌, ◌/◌, ◌%◌, Bool, true, false, Option, none, some, if◌then◌else◌, ltb,
  leb, ◌==◌, add64,
}
use logblock.RangeMap.BitSets.{Bitmap256, BitSet}

abbrev pub update {ℓ} : {A : Type ℓ} → (ℕ → A) → ℕ → A → ℕ → A
update f i a j = if i == j then a else f j

-- `bitmapRangeMapLeaf`
pub record Leaf (B : Bitmap256) (V : Type 0) : Type 0 where
  pub bm : B.Bits
  pub items : ℕ → V

-- `BitmapRangeMap`
pub record BitmapRangeMap (B : Bitmap256) (S : BitSet) (V : Type 0) : Type 0 where
  pub entries : ℕ → Option (Leaf B V)
  pub full_leaf_index : S.Bits
  pub part_leaf_index : S.Bits

-- `leafCount`
unfoldable pub leaf_count : ℕ → ℕ → ℕ
leaf_count offset end =
    let count = 256 - offset % 256 in if ltb (end - offset) count then end - offset else count

-- The last index below `n` that passes a test, as the loops of `End` go down
unfoldable pub last_below : (ℕ → Bool) → ℕ → Option ℕ
last_below test zero = none
last_below test (suc n) = let rest = last_below test n in if test n then some n else rest

-- `nextNonFull`
unfoldable pub next_non_full : (S : BitSet) → S.Bits → ℕ → ℕ
next_non_full S full start = elim (S.next_clear full start) [
  | none ↦ if ltb start (S.len full) then S.len full else start
  | some n ↦ n
]

module _ (B : Bitmap256) (S : BitSet) {V : Type 0} where
  -- `has` and `insert`
  unfoldable pub has : Leaf B V → ℕ → Bool
  has l i = B.get l.bm i

  unfoldable pub insert : ℕ → ℕ → V → Leaf B V → Leaf B V
  insert zero i v l = l
  insert (suc n) i v l =
      insert n (i + 1) v (record { bm = B.put l.bm i; items = update l.items i v })

  -- `NewBitmapRangeMap`
  unfoldable pub new_map : BitmapRangeMap B S V
  new_map = record { entries = λ i. none; full_leaf_index = S.no_bits; part_leaf_index = S.no_bits }

  -- The leaf of `getOrCreateLeaf`
  unfoldable pub get_or_create_leaf : V → BitmapRangeMap B S V → ℕ → Leaf B V
  get_or_create_leaf zero_value m i = elim (m.entries i) [
    | none ↦ record { bm = B.no_bits; items = λ j. zero_value }
    | some l ↦ l
  ]

  -- An iteration of the loop of `Add`, on `count` keys of one leaf
  unfoldable pub add_leaf : V → ℕ → ℕ → V → BitmapRangeMap B S V → BitmapRangeMap B S V
  add_leaf zero_value offset count v m =
      let i = offset / 256 in
      let l = get_or_create_leaf zero_value m i in
      let l' = insert count (offset % 256) v l in
      record {
        entries = update m.entries i (some l');
        full_leaf_index = if B.is_full l'.bm then S.put m.full_leaf_index i else m.full_leaf_index;
        part_leaf_index = if B.is_empty l.bm then S.put m.part_leaf_index i else m.part_leaf_index;
      }

  -- The loop of `Add`; an iteration adds at least a key.
  unfoldable pub add_loop : V → ℕ → ℕ → ℕ → V → BitmapRangeMap B S V → BitmapRangeMap B S V
  add_loop zero_value zero offset end v m = m
  add_loop zero_value (suc fuel) offset end v m =
      let count = leaf_count offset end in
      let rest =
        add_loop zero_value fuel (add64 offset count) end v
          (add_leaf zero_value offset count v m) in
      if ltb offset end then rest else m

  unfoldable pub add : V → BitmapRangeMap B S V → ℕ → ℕ → V → BitmapRangeMap B S V
  add zero_value m offset len v = add_loop zero_value len offset (add64 offset len) v m

  -- `Get`
  unfoldable pub get_leaf : Option (Leaf B V) → ℕ → Option V
  get_leaf none i = none
  get_leaf (some l) i = if has l i then some (l.items i) else none

  unfoldable pub get : BitmapRangeMap B S V → ℕ → Option V
  get m offset = get_leaf (m.entries (offset / 256)) (offset % 256)

  -- The first key of a leaf, at the first bit that is set; `none` is a nil leaf.
  unfoldable pub first_in_leaf : BitmapRangeMap B S V → ℕ → Option ℕ
  first_in_leaf m i = elim (m.entries i) [
    | none ↦ none
    | some l ↦ some (i * 256 + B.find_next_set l.bm 0)
  ]

  -- `NextKey` from the next leaf on; `none` is a panic.
  unfoldable pub next_leaf_key : BitmapRangeMap B S V → ℕ → Option (Option ℕ)
  next_leaf_key m i = elim (S.next_set m.part_leaf_index i) [
    | none ↦ some none
    | some next ↦ elim (first_in_leaf m next) [ none ↦ none | some n ↦ some (some n) ]
  ]

  unfoldable pub next_key : BitmapRangeMap B S V → ℕ → Option (Option ℕ)
  next_key m off =
      let rest = next_leaf_key m (off / 256 + 1) in
      elim (m.entries (off / 256)) [
        | none ↦ rest
        | some l ↦
            let next = B.find_next_set l.bm (off % 256) in
            if ltb next 256 then some (some (off / 256 * 256 + next)) else rest
      ]

  -- `Begin`; `none` is a panic.
  unfoldable pub begin : BitmapRangeMap B S V → Option (Option ℕ)
  begin m = elim (S.next_set m.part_leaf_index 0) [
    | none ↦ some none
    | some i ↦ elim (m.entries i) [
      | none ↦ none
      | some l ↦
          let first = B.find_next_set l.bm 0 in
          if ltb first 256 then some (some (first + i * 256)) else none
    ]
  ]

  -- `End`; `none` is a panic.
  unfoldable pub map_end : BitmapRangeMap B S V → Option ℕ
  map_end m = elim (last_below (S.test m.part_leaf_index) (S.len m.part_leaf_index)) [
    | none ↦ some 0
    | some i ↦ elim (m.entries i) [
      | none ↦ none
      | some l ↦ elim (last_below (has l) 256) [ none ↦ none | some j ↦ some (j + i * 256 + 1) ]
    ]
  ]

  -- `NextEmpty`; `none` is a panic.
  unfoldable pub next_leaf_empty : BitmapRangeMap B S V → ℕ → Option ℕ
  next_leaf_empty m i = elim (m.entries i) [
    | none ↦ some (i * 256)
    | some l ↦ if B.is_full l.bm then none else some (i * 256 + B.find_next_clear l.bm 0)
  ]

  unfoldable pub next_empty : BitmapRangeMap B S V → ℕ → Option ℕ
  next_empty m off =
      let rest = next_leaf_empty m (next_non_full S m.full_leaf_index (off / 256 + 1)) in
      elim (m.entries (off / 256)) [
        | none ↦ some off
        | some l ↦
            let next = B.find_next_clear l.bm (off % 256) in
            if ltb next 256 then some (off / 256 * 256 + next) else rest
      ]
