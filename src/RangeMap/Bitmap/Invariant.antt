-- ===== src/RangeMap/Bitmap/Invariant.antt =====
-- When a map of internal/rangemap/bitmap_range_map.go is well-formed: its leaves are not empty, and the two
-- indexes are of the leaves that there are, and of those that are full.
use logblock.Prelude.{ℕ, ◌<◌, ◌≡◌, true, some}
use logblock.RangeMap.BitSets.{Bitmap256, BitSet}
use logblock.RangeMap.Bitmap.{Leaf, BitmapRangeMap}

module _ (B : Bitmap256) (S : BitSet) {V : Type 0} where
  abbrev pub Full : Leaf B V → Type 0
  Full l = (j : ℕ) → j < 256 → B.get l.bm j ≡ true

  abbrev pub Nonempty : Leaf B V → Type 0
  Nonempty l = (j : ℕ) × (j < 256) × (B.get l.bm j ≡ true)

  pub record IsValid (m : BitmapRangeMap B S V) : Type 0 where
    pub part_leaf :
        (i : ℕ) → S.test m.part_leaf_index i ≡ true → (l : Leaf B V) × (m.entries i ≡ some l)
    pub leaf_part :
        (i : ℕ) (l : Leaf B V) → m.entries i ≡ some l → S.test m.part_leaf_index i ≡ true
    pub leaf_nonempty : (i : ℕ) (l : Leaf B V) → m.entries i ≡ some l → Nonempty l
    pub full_leaf :
        (i : ℕ)
        → S.test m.full_leaf_index i ≡ true
        → (l : Leaf B V) × (m.entries i ≡ some l) × Full l
    pub leaf_full :
        (i : ℕ) (l : Leaf B V) → m.entries i ≡ some l → Full l → S.test m.full_leaf_index i ≡ true
