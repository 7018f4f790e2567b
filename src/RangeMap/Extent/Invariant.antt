-- ===== src/RangeMap/Extent/Invariant.antt =====
-- The invariant of the extent map of internal/rangemap/extent_range_map.go, stated on the view
-- `at` of its tree: extents are stored under their offset, are not empty, end below 2^64 and are
-- disjoint.
use logblock.Prelude.{ℕ, ◌+◌, ◌^◌, ◌≤◌, ◌<◌, ◌≡◌, ◌↔◌, true, false, Option, some, arith, add64-eq}
use logblock.RangeMap.{RangeValue, contains}

module _ {V : Type 0} where
  -- A range of values ends below 2^64.
  abbrev pub Fits : RangeValue V → Type 0
  Fits r = (0 < r.length) × (r.offset + r.length < 2 ^ 64)

  abbrev pub Inside : RangeValue V → ℕ → Type 0
  Inside r x = (r.offset ≤ x) × (x < r.offset + r.length)

  pub record IsValid (at : ℕ → Option (RangeValue V)) : Type 0 where
    pub key : (j : ℕ) (r : RangeValue V) → at j ≡ some r → r.offset ≡ j
    pub fits : (j : ℕ) (r : RangeValue V) → at j ≡ some r → Fits r
    pub apart :
        (j k : ℕ) (r s : RangeValue V) → at j ≡ some r → at k ≡ some s → j < k → j + r.length ≤ k

  -- An extent that covers `x`, with its value.
  pub record Covers (at : ℕ → Option (RangeValue V)) (x : ℕ) (v : V) : Type 0 where
    pub item : RangeValue V
    pub stored : at item.offset ≡ some item
    pub inside : Inside item x
    pub holds : item.value ≡ v

  pub contains_iff : (r : RangeValue V) (x : ℕ) → Fits r → (contains r.range x ≡ true) ↔ Inside r x
  unfolding contains
  contains_iff r x f = let e = add64-eq r.offset r.length f.1 in ground arith

  pub contains-false :
      (r : RangeValue V) (x : ℕ) → Fits r → contains r.range x ≡ false → Inside r x → Unit {0} × ⊥
  unfolding contains
  contains-false r x f c i = let e = add64-eq r.offset r.length f.1 in ground arith
