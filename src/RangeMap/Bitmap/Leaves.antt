-- ===== src/RangeMap/Bitmap/Leaves.antt =====
-- One iteration of `Add` of internal/rangemap/bitmap_range_map.go: it sets keys of one leaf.
use logblock.Prelude.{
  ℕ, zero, suc, ◌+◌, ◌/◌, ◌%◌, ◌≤◌, ◌<◌, ◌≡◌, refl, ap, ◌∙◌, inl, inr, true, false, some, arith,
  if◌then◌else◌, ◌==◌, Bool-cases,
}
use logblock.RangeMap.Spec.{in_range}
use logblock.RangeMap.BitSets.{Bitmap256, BitSet}
use logblock.RangeMap.Bitmap.{
  update, Leaf, BitmapRangeMap, has, insert, get_or_create_leaf, add_leaf, get_leaf, get,
}

same_leaf :
    (offset n x : ℕ)
    → offset % 256 + n ≤ 256
    → offset / 256 ≡ x / 256
    → in_range (offset % 256) n (x % 256) ≡ in_range offset n x
same_leaf offset n x fits same = ground arith

other_leaf :
    (offset n x : ℕ)
    → offset % 256 + n ≤ 256
    → (offset / 256 == x / 256) ≡ false
    → in_range offset n x ≡ false
other_leaf offset n x fits other = ground arith

module _ (B : Bitmap256) (S : BitSet) {V : Type 0} where
  pub insert-bits :
      (n i : ℕ) (v : V) (l : Leaf B V) (j : ℕ)
      → i + n ≤ 256
      → j < 256
      → B.get (insert B S n i v l).bm j ≡ (if in_range i n j then true else B.get l.bm j)
  unfolding insert
  insert-bits zero i v l j fits below = ground arith
  insert-bits (suc n) i v l j fits below =
      insert-bits n (i + 1) v (record { bm = B.put l.bm i; items = update l.items i v }) j
        (omega arith) below
      ∙ ground (arith, B.get-put l.bm i j (omega arith) below)

  insert-items :
      (n i : ℕ) (v : V) (l : Leaf B V) (j : ℕ)
      → (insert B S n i v l).items j ≡ (if in_range i n j then v else l.items j)
  unfolding insert
  insert-items zero i v l j = ground arith
  insert-items (suc n) i v l j =
      insert-items n (i + 1) v (record { bm = B.put l.bm i; items = update l.items i v }) j
      ∙ ground arith

  -- A leaf that is made shows nothing, as no leaf does.
  get_leaf-created :
      (z : V) (m : BitmapRangeMap B S V) (i j : ℕ)
      → get_leaf B S (some (get_or_create_leaf B S z m i)) j ≡ get_leaf B S (m.entries i) j
  unfolding get_or_create_leaf get_leaf has
  get_leaf-created z m i j = ground (arith, B.get_no_bits j)

  get_leaf-insert :
      (n i : ℕ) (v : V) (l : Leaf B V) (j : ℕ)
      → i + n ≤ 256
      → j < 256
      → get_leaf B S (some (insert B S n i v l)) j
        ≡ (if in_range i n j then some v else get_leaf B S (some l) j)
  unfolding get_leaf has
  get_leaf-insert n i v l j fits below =
      ground (arith, insert-bits n i v l j fits below, insert-items n i v l j)

  -- The iteration adds its keys to what the map shows.
  pub get-add_leaf :
      (z : V) (m : BitmapRangeMap B S V) (offset n : ℕ) (v : V) (x : ℕ)
      → offset % 256 + n ≤ 256
      → get B S (add_leaf B S z offset n v m) x
        ≡ (if in_range offset n x then some v else get B S m x)
  unfolding get add_leaf
  get-add_leaf z m offset n v x fits = elim (Bool-cases (offset / 256 == x / 256)) [
    | inl here ↦
        let same : offset / 256 ≡ x / 256 = ground (arith, here) in
        rw here (
          get_leaf-insert n (offset % 256) v (get_or_create_leaf B S z m (offset / 256)) (x % 256)
            fits (omega arith)
          ∙ λ i.
              if same_leaf offset n x fits same i
              then some v
              else (get_leaf-created z m (offset / 256) (x % 256)
                    ∙ ap (λ k. get_leaf B S (m.entries k) (x % 256)) same)
                  i)
    | inr other ↦ rw other (rw (other_leaf offset n x fits other) refl)
  ]
