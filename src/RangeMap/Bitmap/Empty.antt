-- ===== src/RangeMap/Bitmap/Empty.antt =====
-- `NextEmpty` of internal/rangemap/bitmap_range_map.go against the map that `Get` shows.
use logblock.Prelude.{
  ℕ, ◌+◌, ◌*◌, ◌%◌, ◌/◌, ◌≤◌, ◌<◌, ◌≡◌, refl, ap, ◌∙◌, inl, inr, true, false, some, arith, ltb,
  Bool-cases, Option-cases,
}
use logblock.RangeMap.Spec.{AllMapped, NextHole}
use logblock.RangeMap.BitSets.{Bitmap256, BitSet}
use logblock.RangeMap.Bitmap.{Leaf, BitmapRangeMap, get, next_non_full, next_leaf_empty, next_empty}
use logblock.RangeMap.Bitmap.Invariant.{IsValid}
use logblock.RangeMap.Bitmap.Next.{get_set, get_clear, get_no_leaf}

module _ (S : BitSet) where
  beyond : (full : S.Bits) (i : ℕ) → S.len full ≤ i → S.test full i ≡ false
  beyond full i h = elim (Bool-cases (S.test full i)) [
    | inl set ↦ absurd (omega (arith, S.test_len full i set))
    | inr clear ↦ clear
  ]

  -- The next leaf that is not full
  next_non_full_lem :
      (full : S.Bits) (start : ℕ)
      → (start ≤ next_non_full S full start)
        × (S.test full (next_non_full S full start) ≡ false)
        × ((j : ℕ) → start ≤ j → j < next_non_full S full start → S.test full j ≡ true)
  unfolding next_non_full
  next_non_full_lem full start = elim (Option-cases (S.next_clear full start)) [
    | inr (n, e) ↦ rw (e, next_non_full) (S.next_clear_some full start n e)
    | inl e ↦ elim (Bool-cases (ltb start (S.len full))) [
      | inl more ↦
          rw (e, next_non_full)
            (rw more (
              ground (arith, more),
              beyond full (S.len full) (omega arith),
              S.next_clear_none full start e,
            ))
      | inr past ↦
          rw (e, next_non_full)
            (rw past (
              omega arith,
              beyond full start (ground (arith, past)),
              λ j above under. absurd (omega arith),
            ))
    ]
  ]

module _ (B : Bitmap256) (S : BitSet) {V : Type 0} (m : BitmapRangeMap B S V)
    (valid : IsValid B S m) where
  -- From the next leaf on, when the rest of the leaf of the offset is mapped.
  next_leaf_empty-NextHole :
      (off : ℕ)
      → AllMapped (get B S m) off ((off / 256 + 1) * 256)
      → (n : ℕ) × (next_leaf_empty B S m (next_non_full S m.full_leaf_index (off / 256 + 1))
          ≡ some n)
        × NextHole (get B S m) off n
  unfolding next_leaf_empty
  next_leaf_empty-NextHole off passed =
      let next = next_non_full S m.full_leaf_index (off / 256 + 1) in
      let law = next_non_full_lem S m.full_leaf_index (off / 256 + 1) in
      elim (Option-cases (m.entries next)) [
        | inl e ↦
            let leaf : next * 256 / 256 ≡ next = omega arith in
            (
              next * 256,
              rw (e, next_leaf_empty) refl,
              (
                omega (arith, law.0),
                get_no_leaf B S m valid (next * 256) (ap m.entries leaf ∙ e),
                mapped_before off next passed law.2,
              ),
            )
        | inr (l, e) ↦
            let f = B.find_next_clear l.bm 0 in
            let part = not_full next l e law.1 in
            let scan = B.next_clear l.bm 0 (omega arith) in
            let (j, below, clear) = B.full_false l.bm part in
            let small : f < 256 = ground (arith, scan.1 j (omega arith) below) in
            let leaf : (next * 256 + f) / 256 ≡ next = omega arith in
            let bit : (next * 256 + f) % 256 ≡ f = omega arith in
            (
              next * 256 + f,
              rw (e, next_leaf_empty) (rw part refl),
              (
                omega (arith, law.0),
                get_clear B S m valid l (next * 256 + f) (ap m.entries leaf ∙ e)
                    (ap (B.get l.bm) bit ∙ scan.2 small),
                λ y above under. elim (Bool-cases (ltb y (next * 256))) [
                  | inl before ↦
                      mapped_before off next passed law.2 y above (ground (arith, before))
                  | inr last ↦
                      let from : next * 256 ≤ y = ground (arith, last) in
                      let same : y / 256 ≡ next = omega arith in
                      get_set B S m valid l y (ap m.entries same ∙ e)
                        (scan.1 (y % 256) (omega arith) (omega arith) (omega arith))
                ],
              ),
            )
      ]
    where
      not_full :
          (i : ℕ) (l : Leaf B V)
          → m.entries i ≡ some l
          → S.test m.full_leaf_index i ≡ false
          → B.is_full l.bm ≡ false
      not_full i l e out = elim (Bool-cases (B.is_full l.bm)) [
        | inr part ↦ part
        | inl all ↦ absurd (ground (arith, valid.leaf_full i l e (B.full_true l.bm all)))
      ]

      mapped_before :
          (off next : ℕ)
          → AllMapped (get B S m) off ((off / 256 + 1) * 256)
          → ((j : ℕ) → off / 256 + 1 ≤ j → j < next → S.test m.full_leaf_index j ≡ true)
          → AllMapped (get B S m) off (next * 256)
      mapped_before off next passed full y above under =
          elim (Bool-cases (ltb y ((off / 256 + 1) * 256))) [
            | inl here ↦ passed y above (ground (arith, here))
            | inr later ↦
                let (l, e, all) =
                  valid.full_leaf (y / 256)
                    (full (y / 256) (ground (arith, later)) (omega arith)) in
                get_set B S m valid l y e (all (y % 256) (omega arith))
          ]

  -- On a well-formed map NextEmpty does not panic, and finds the first empty key from an offset on.
  pub next_empty_lem :
      (off : ℕ) → (n : ℕ) × (next_empty B S m off ≡ some n) × NextHole (get B S m) off n
  unfolding next_empty
  next_empty_lem off = elim (Option-cases (m.entries (off / 256))) [
    | inl e ↦ (
      off,
      rw (e, next_empty) refl,
      (omega arith, get_no_leaf B S m valid off e, λ y above under. absurd (omega arith)),
    )
    | inr (l, e) ↦
        let law = B.next_clear l.bm (off % 256) (omega arith) in
        let f = B.find_next_clear l.bm (off % 256) in
        elim (Bool-cases (ltb f 256)) [
          | inl found ↦
              let small : f < 256 = ground (arith, found) in
              let leaf : (off / 256 * 256 + f) / 256 ≡ off / 256 = omega arith in
              let bit : (off / 256 * 256 + f) % 256 ≡ f = omega arith in
              (
                off / 256 * 256 + f,
                rw (e, next_empty) (rw found refl),
                (
                  omega (arith, law.0),
                  get_clear B S m valid l (off / 256 * 256 + f) (ap m.entries leaf ∙ e)
                      (ap (B.get l.bm) bit ∙ law.2 small),
                  λ y above under.
                      let same : y / 256 ≡ off / 256 = omega arith in
                      get_set B S m valid l y (ap m.entries same ∙ e)
                        (law.1 (y % 256) (omega arith) (omega arith) (omega arith)),
                ),
              )
          | inr past ↦
              let large : 256 ≤ f = ground (arith, past) in
              let rest = next_leaf_empty-NextHole off (λ y above under.
                let same : y / 256 ≡ off / 256 = omega arith in
                get_set B S m valid l y (ap m.entries same ∙ e)
                  (law.1 (y % 256) (omega arith) (omega arith) (omega arith))) in
              (rest.0, rw (e, next_empty) (rw past rest.1), rest.2)
        ]
  ]
