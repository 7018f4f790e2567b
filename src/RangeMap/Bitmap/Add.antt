-- ===== src/RangeMap/Bitmap/Add.antt =====
-- `Add` of internal/rangemap/bitmap_range_map.go, as an update of the map that `Get` shows.
use logblock.Prelude.{
  ℕ, zero, suc, ◌+◌, ◌-◌, ◌%◌, ◌^◌, ◌≤◌, ◌<◌, ◌≡◌, refl, subst, ◌∙◌, inl, inr, none, some, arith,
  if◌then◌else◌, ltb, Bool-cases, add64, add64-eq,
}
use logblock.RangeMap.Spec.{in_range}
use logblock.RangeMap.BitSets.{Bitmap256, BitSet}
use logblock.RangeMap.Bitmap.{
  BitmapRangeMap, new_map, leaf_count, add_leaf, add_loop, add, get_leaf, get,
}
use logblock.RangeMap.Bitmap.Invariant.{IsValid}
use logblock.RangeMap.Bitmap.Leaves.{get-add_leaf}
use logblock.RangeMap.Bitmap.Keeps.{add_leaf-IsValid}

leaf_count_bounds :
    (offset end : ℕ)
    → offset < end
    → (0 < leaf_count offset end)
      × (leaf_count offset end ≤ end - offset)
      × (offset % 256 + leaf_count offset end ≤ 256)
unfolding leaf_count
leaf_count_bounds offset end more = ground arith

module _ (B : Bitmap256) (S : BitSet) {V : Type 0} where
  pub new_map-IsValid : IsValid B S (new_map B S {V = V})
  unfolding new_map
  new_map-IsValid = record {
    part_leaf = λ i h. cc (S.test_no_bits i);
    leaf_part = λ i l e. cc;
    leaf_nonempty = λ i l e. cc;
    full_leaf = λ i h. cc (S.test_no_bits i);
    leaf_full = λ i l e. cc;
  }

  pub get-new_map : (x : ℕ) → get B S (new_map B S {V = V}) x ≡ none
  unfolding get new_map get_leaf
  get-new_map x = refl

  -- What a map shows after an addition, and that it is well-formed
  abbrev pub Added : BitmapRangeMap B S V → ℕ → ℕ → V → BitmapRangeMap B S V → Type 0
  Added m offset len v m' =
      IsValid B S m'
      × ((x : ℕ) → get B S m' x ≡ (if in_range offset len x then some v else get B S m x))

  add_loop-Added :
      (z : V) (fuel offset end : ℕ) (v : V) (m : BitmapRangeMap B S V)
      → IsValid B S m
      → end < 2 ^ 64
      → end - offset ≤ fuel
      → Added m offset (end - offset) v (add_loop B S z fuel offset end v m)
  unfolding add_loop
  add_loop-Added z zero offset end v m valid small enough = (valid, λ x. ground arith)
  add_loop-Added z (suc fuel) offset end v m valid small enough =
      elim (Bool-cases (ltb offset end)) [
        | inl more ↦
            let n = leaf_count offset end in
            let b = leaf_count_bounds offset end (ground (arith, more)) in
            let m' = add_leaf B S z offset n v m in
            let sum : add64 offset n ≡ offset + n = add64-eq offset n (omega (arith, b)) in
            let keeps = add_leaf-IsValid B S z m valid offset n v b.0 b.2 in
            let rest = add_loop-Added z fuel (offset + n) end v m' keeps small (omega (arith, b)) in
            rw more (
              rw sum
                (rest.0, λ x. rest.1 x ∙ ground (arith, get-add_leaf B S z m offset n v x b.2, b)))
        | inr stop ↦ rw stop (valid, λ x. ground (arith, stop))
      ]

  -- Add of a range that ends below 2^64 to a well-formed map keeps it well-formed, makes Get find the value
  -- everywhere in the range, and leaves Get as it was outside.
  pub add-Added :
      (z : V) (m : BitmapRangeMap B S V) (offset len : ℕ) (v : V)
      → IsValid B S m
      → offset + len < 2 ^ 64
      → Added m offset len v (add B S z m offset len v)
  unfolding add
  add-Added z m offset len v valid small =
      let e : offset + len - offset ≡ len = omega arith in
      rw (add64-eq offset len small) (
        subst (λ n. Added m offset n v (add_loop B S z len offset (offset + len) v m)) e
          (add_loop-Added z len offset (offset + len) v m valid small (omega arith)))
