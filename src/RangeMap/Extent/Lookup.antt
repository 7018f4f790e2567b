-- ===== src/RangeMap/Extent/Lookup.antt =====
-- `Get` and `GetWithRange` of internal/rangemap/extent_range_map.go find the extent that covers an
-- offset.
use logblock.Prelude.{
  ℕ, suc, ◌≡◌, ap, ◌↔◌, inl, inr, Option, none, some, List, [], ◌∷◌, arith, Option-cases,
}
use logblock.RangeMap.{RangeValue}
use logblock.RangeMap.RadixTree.{RadixTree, Descending}
use logblock.RangeMap.Extent.{covering, get_with_range, get}
use logblock.RangeMap.Extent.Invariant.{IsValid, Inside, Covers, contains_iff}

module _ {V : Type 0} (at : ℕ → Option (RangeValue V)) (valid : IsValid at) where
  -- Two stored extents that cover one offset are the same.
  pub Inside-unique :
      (r s : RangeValue V) (x : ℕ)
      → at r.offset ≡ some r
      → at s.offset ≡ some s
      → Inside r x
      → Inside s x
      → r ≡ s
  Inside-unique r s x hr hs ir is =
      ground (arith, valid.apart r.offset s.offset r s, valid.apart s.offset r.offset s r)

  pub covering_sound :
      (x b : ℕ) (items : List (RangeValue V)) (r : RangeValue V)
      → Descending at b items
      → covering x items ≡ some r
      → (at r.offset ≡ some r) × Inside r x
  unfolding covering
  covering_sound x b [] r d h = cc
  covering_sound x b (ie ∷ items) r d h = ground (arith, contains_iff ie x, valid.fits ie.offset ie)

  pub covering_complete :
      (x : ℕ) (items : List (RangeValue V)) (r : RangeValue V)
      → Descending at (suc x) items
      → at r.offset ≡ some r
      → Inside r x
      → covering x items ≡ some r
  unfolding covering
  covering_complete x [] r d h i = ground (arith, d r.offset)
  covering_complete x (ie ∷ items) r d h i = ground (
    arith,
    contains_iff ie x,
    valid.fits ie.offset ie,
    d.2 r.offset,
    valid.apart r.offset ie.offset r ie,
  )

module _ {V : Type 0} (T : RadixTree V) (m : T.Tree) (valid : IsValid (T.at m)) where
  pub get_with_range_iff :
      (x : ℕ) (r : RangeValue V)
      → (get_with_range T m x ≡ some r) ↔ ((T.at m r.offset ≡ some r) × Inside r x)
  unfolding get_with_range
  get_with_range_iff x r =
      let d = T.descend_less_or_equal-Descending x m in
      (
        λ h. covering_sound (T.at m) valid x (suc x) _ r d h,
        λ h. covering_complete (T.at m) valid x _ r d h.0 h.1,
      )

  pub get_iff : (x : ℕ) (v : V) → (get T m x ≡ some v) ↔ Covers (T.at m) x v
  unfolding get
  get_iff x v = (
    λ h. elim (Option-cases (get_with_range T m x)) [
      | inl e ↦ absurd (cc)
      | inr (r, e) ↦
          let (stored, inside) = (get_with_range_iff x r).0 e in
          record { item = r; stored = stored; inside = inside; holds = ground arith }
    ],
    λ c. rw ((get_with_range_iff x c.item).1 (c.stored, c.inside), get) (ap some c.holds),
  )

-- The map at the start
module _ {V : Type 0} (T : RadixTree V) where
  pub empty-IsValid : IsValid (T.at T.empty)
  empty-IsValid = record {
    key = λ j r h. absurd (cc (T.at-empty j));
    fits = λ j r h. absurd (cc (T.at-empty j));
    apart = λ j k r s h _ _. absurd (cc (T.at-empty j));
  }

  pub get-empty : (x : ℕ) → get T T.empty x ≡ none
  get-empty x = elim (Option-cases (get T T.empty x)) [
    | inl e ↦ e
    | inr (v, e) ↦
        let k = (get_iff T T.empty empty-IsValid x v).0 e in
        absurd (cc (T.at-empty k.item.offset, k.stored))
  ]
