-- ===== src/RangeMap/Bitmap/Next.antt =====
-- `NextKey` and `NextEmpty` of internal/rangemap/bitmap_range_map.go against the map that `Get` shows.
use logblock.Prelude.{
  ℕ, ◌+◌, ◌*◌, ◌%◌, ◌/◌, ◌≤◌, ◌<◌, ◌≡◌, ◌≢◌, refl, ap, ◌∙◌, inl, inr, true, false, Option, none,
  some, arith, ltb, Bool-cases, Option-cases,
}
use logblock.RangeMap.Spec.{AllEmpty, NextMapped}
use logblock.RangeMap.BitSets.{Bitmap256, BitSet}
use logblock.RangeMap.Bitmap.{
  Leaf, BitmapRangeMap, has, get_leaf, get, first_in_leaf, next_leaf_key, next_key,
}
use logblock.RangeMap.Bitmap.Invariant.{IsValid}

module _ (B : Bitmap256) (S : BitSet) {V : Type 0} (m : BitmapRangeMap B S V)
    (valid : IsValid B S m) where
  -- What `Get` shows of a key, by its leaf
  get_at :
      (l : Leaf B V) (x : ℕ)
      → m.entries (x / 256) ≡ some l
      → get B S m x ≡ get_leaf B S (some l) (x % 256)
  unfolding get
  get_at l x e = ap (λ k. get_leaf B S k (x % 256)) e

  pub get_set :
      (l : Leaf B V) (x : ℕ)
      → m.entries (x / 256) ≡ some l
      → B.get l.bm (x % 256) ≡ true
      → get B S m x ≢ none
  unfolding get_leaf has
  get_set l x e set = ground (arith, get_at l x e)

  pub get_clear :
      (l : Leaf B V) (x : ℕ)
      → m.entries (x / 256) ≡ some l
      → B.get l.bm (x % 256) ≡ false
      → get B S m x ≡ none
  unfolding get_leaf has
  get_clear l x e clear = ground (arith, get_at l x e)

  pub get_no_leaf : (x : ℕ) → m.entries (x / 256) ≡ none → get B S m x ≡ none
  unfolding get get_leaf
  get_no_leaf x e = ap (λ k. get_leaf B S k (x % 256)) e

  -- A leaf that is not in the index shows nothing.
  no_leaf : (i : ℕ) → S.test m.part_leaf_index i ≡ false → m.entries i ≡ none
  no_leaf i out = elim (Option-cases (m.entries i)) [
    | inl e ↦ e
    | inr (l, e) ↦ absurd (ground (arith, valid.leaf_part i l e))
  ]

  -- The first key of a leaf
  first_set :
      (i : ℕ) (l : Leaf B V)
      → m.entries i ≡ some l
      → (B.find_next_set l.bm 0 < 256)
        × (get B S m (i * 256 + B.find_next_set l.bm 0) ≢ none)
        × AllEmpty (get B S m) (i * 256) (i * 256 + B.find_next_set l.bm 0)
  first_set i l e =
      let f = B.find_next_set l.bm 0 in
      let law = B.next_set l.bm 0 (omega arith) in
      let (j, below, set) = valid.leaf_nonempty i l e in
      let small : f < 256 = ground (arith, law.1 j (omega arith) below) in
      let leaf : (i * 256 + f) / 256 ≡ i = omega arith in
      let bit : (i * 256 + f) % 256 ≡ f = omega arith in
      (
        small,
        get_set l (i * 256 + f) (ap m.entries leaf ∙ e) (ap (B.get l.bm) bit ∙ law.2 small),
        λ y above under.
            let same : y / 256 ≡ i = omega arith in
            get_clear l y (ap m.entries same ∙ e)
              (law.1 (y % 256) (omega arith) (omega arith) (omega arith)),
      )

  -- Between two leaves that follow each other in the index
  between :
      (i next y : ℕ)
      → ((j : ℕ) → i ≤ j → j < next → S.test m.part_leaf_index j ≡ false)
      → i * 256 ≤ y
      → y < next * 256
      → get B S m y ≡ none
  between i next y clear above under =
      get_no_leaf y (no_leaf (y / 256) (clear (y / 256) (omega arith) (omega arith)))

  -- From the next leaf on, when the rest of the leaf of the offset is empty.
  next_leaf_key-NextMapped :
      (off : ℕ)
      → AllEmpty (get B S m) off ((off / 256 + 1) * 256)
      → (r : Option ℕ) × (next_leaf_key B S m (off / 256 + 1) ≡ some r)
        × NextMapped (get B S m) off r
  unfolding next_leaf_key first_in_leaf
  next_leaf_key-NextMapped off passed =
      elim (Option-cases (S.next_set m.part_leaf_index (off / 256 + 1))) [
        | inl e ↦ (
          none,
          rw (e, next_leaf_key) refl,
          λ y h. elim (Bool-cases (ltb y ((off / 256 + 1) * 256))) [
            | inl here ↦ passed y h (ground (arith, here))
            | inr later ↦ get_no_leaf y (
                no_leaf (y / 256) (
                  S.next_set_none m.part_leaf_index (off / 256 + 1) e (y / 256)
                    (ground (arith, later))))
          ],
        )
        | inr (next, e) ↦
            let s = S.next_set_some m.part_leaf_index (off / 256 + 1) next e in
            let (l, el) = valid.part_leaf next s.1 in
            let f = first_set next l el in
            let n = next * 256 + B.find_next_set l.bm 0 in
            (
              some n,
              rw (e, next_leaf_key) (rw (el, first_in_leaf) refl),
              (
                omega (arith, s.0),
                f.1,
                λ y above under. elim (Bool-cases (ltb y (next * 256))) [
                  | inr last ↦ f.2 y (ground (arith, last)) under
                  | inl before ↦ elim (Bool-cases (ltb y ((off / 256 + 1) * 256))) [
                    | inl here ↦ passed y above (ground (arith, here))
                    | inr later ↦
                        between (off / 256 + 1) next y s.2 (ground (arith, later))
                          (ground (arith, before))
                  ]
                ],
              ),
            )
      ]

  -- On a well-formed map NextKey does not panic, and finds the first mapped key from an offset on, or reports that
  -- every key from there on is empty.
  pub next_key_lem :
      (off : ℕ) → (r : Option ℕ) × (next_key B S m off ≡ some r) × NextMapped (get B S m) off r
  unfolding next_key
  next_key_lem off = elim (Option-cases (m.entries (off / 256))) [
    | inl e ↦
        let rest = next_leaf_key-NextMapped off (λ y above under.
          let same : y / 256 ≡ off / 256 = omega arith in get_no_leaf y (ap m.entries same ∙ e)) in
        (rest.0, rw (e, next_key) rest.1, rest.2)
    | inr (l, e) ↦
        let law = B.next_set l.bm (off % 256) (omega arith) in
        let f = B.find_next_set l.bm (off % 256) in
        elim (Bool-cases (ltb f 256)) [
          | inl found ↦
              let small : f < 256 = ground (arith, found) in
              let leaf : (off / 256 * 256 + f) / 256 ≡ off / 256 = omega arith in
              let bit : (off / 256 * 256 + f) % 256 ≡ f = omega arith in
              (
                some (off / 256 * 256 + f),
                rw (e, next_key) (rw found refl),
                (
                  omega (arith, law.0),
                  get_set l (off / 256 * 256 + f) (ap m.entries leaf ∙ e)
                      (ap (B.get l.bm) bit ∙ law.2 small),
                  λ y above under.
                      let same : y / 256 ≡ off / 256 = omega arith in
                      get_clear l y (ap m.entries same ∙ e)
                        (law.1 (y % 256) (omega arith) (omega arith) (omega arith)),
                ),
              )
          | inr past ↦
              let large : 256 ≤ f = ground (arith, past) in
              let rest = next_leaf_key-NextMapped off (λ y above under.
                let same : y / 256 ≡ off / 256 = omega arith in
                get_clear l y (ap m.entries same ∙ e)
                  (law.1 (y % 256) (omega arith) (omega arith) (omega arith))) in
              (rest.0, rw (e, next_key) (rw past rest.1), rest.2)
        ]
  ]
