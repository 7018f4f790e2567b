-- ===== src/RangeMap/Extent/Iterate/Runs.antt =====
-- The ranges that `Iterate` of internal/rangemap/extent_range_map.go hands to its callback.
use logblock.Prelude.{
  ℕ, suc, ◌+◌, ◌^◌, ◌≤◌, ◌<◌, ◌≡◌, ◌≢◌, refl, sym, ◌↔◌, inl, inr, Bool, true, false, Option, none,
  some, List, [], ◌∷◌, arith, if◌then◌else◌, add64-eq, ltb, Comparable, Bool-cases, dec_lt,
}
use logblock.RangeMap.{RangeValue}
use logblock.RangeMap.Spec.{in_range, Runs, denote, feed}
use logblock.RangeMap.RadixTree.{RadixTree, Ascending}
use logblock.RangeMap.Extent.{get}
use logblock.RangeMap.Extent.Invariant.{IsValid, Inside}
use logblock.RangeMap.Extent.Lookup.{get_iff}
use logblock.RangeMap.Extent.Next.{get-none, none_inside}
use logblock.RangeMap.Extent.Iterate.{
  clip, extend, continues, zero_range, iterate_items, first_key, iterate,
}

module _ {V : Type 0} ⦃c : Comparable V⦄ where
  -- The same recursion as `iterate_items`, with the calls kept as a list.
  unfoldable pub ranges_from : ℕ → RangeValue V → List (RangeValue V) → List (RangeValue V)
  ranges_from start r [] = if ltb 0 r.length then r ∷ [] else []
  ranges_from start r (ie ∷ items) =
      let clipped = ranges_from start (clip start ie) items in
      let extended = ranges_from start (extend r ie.length) items in
      let fresh = ranges_from start ie items in
      if ltb ie.offset start
      then clipped
      else if continues r ie
      then extended
      else if ltb 0 r.length
      then r ∷ fresh
      else fresh

  -- The calls end with the first that answers `false`.
  iterate_items-feed :
      {S : Type 0} (iter : S → RangeValue V → S × Bool) (start : ℕ) (r : RangeValue V) (s : S)
      (items : List (RangeValue V))
      → iterate_items iter start r s items ≡ feed iter s (ranges_from start r items)
  unfolding iterate_items ranges_from feed
  iterate_items-feed iter start r s [] = ground arith
  iterate_items-feed iter start r s (ie ∷ items) = ground (
    arith,
    iterate_items-feed iter start (clip start ie) s items,
    iterate_items-feed iter start (extend r ie.length) s items,
    iterate_items-feed iter start ie (iter s r).0 items,
    iterate_items-feed iter start ie s items,
  )

  pub continues_iff :
      (r ie : RangeValue V)
      → r.offset + r.length < 2 ^ 64
      → (continues r ie ≡ true) ↔ ((r.value ≡ ie.value) × (ie.offset ≡ r.offset + r.length))
  unfolding continues
  continues_iff r ie h =
      let e = add64-eq r.offset r.length h in ground (arith, c.beq_iff r.value ie.value)

raise :
    {V : Type 0} {at : ℕ → Option (RangeValue V)} (a b : ℕ) (items : List (RangeValue V))
    → a ≤ b
    → ((j : ℕ) → a ≤ j → j < b → at j ≡ none)
    → Ascending at a items
    → Ascending at b items
raise a b [] le gap asc = λ j ge. asc j (omega arith)
raise a b (r ∷ items) le gap asc = (
  elim (dec_lt r.offset b) [ yes lt ↦ absurd (ground (arith, gap r.offset)) | no ge ↦ omega arith ],
  asc.1,
  λ j ge lt. asc.2 j (omega arith) lt,
  asc.3,
)

module _ {V : Type 0} ⦃c : Comparable V⦄ (T : RadixTree V) (m : T.Tree)
    (valid : IsValid (T.at m)) where
  -- The items after `ie` start at its end or later.
  pub Ascending-past :
      (ie : RangeValue V) (items : List (RangeValue V)) {a : ℕ}
      → Ascending (T.at m) a (ie ∷ items)
      → Ascending (T.at m) (ie.offset + ie.length) items
  Ascending-past ie items asc =
      raise (suc ie.offset) (ie.offset + ie.length) items
        (omega (arith, (valid.fits ie.offset ie asc.1).0))
        (λ j ge lt. none_inside T m valid ie asc.1 j ge lt) asc.3

  pub denote_items :
      (a x : ℕ) (items : List (RangeValue V))
      → Ascending (T.at m) a items
      → ((r : RangeValue V) → T.at m r.offset ≡ some r → Inside r x → a ≤ r.offset)
      → denote items x ≡ get T m x
  unfolding denote
  denote_items a x [] asc after =
      sym (get-none T m valid x (λ r h i. ground (arith, asc r.offset, after r h i)))
  denote_items a x (ie ∷ items) asc after = elim (Bool-cases (in_range ie.offset ie.length x)) [
    | inl here ↦ rw here (
        sym (
          (get_iff T m valid x ie.value).1
            (record { item = ie; stored = asc.1; inside = ground arith; holds = refl })))
    | inr other ↦ rw other (
        denote_items (suc ie.offset) x items asc.3
          (λ r h i. ground (arith, after r h i, asc.1, asc.2 r.offset)))
  ]

  -- With the pending range `r`, the ranges show `r` and then the items.
  pub denote_ranges :
      (start a x : ℕ) (r : RangeValue V) (items : List (RangeValue V))
      → start ≤ a
      → Ascending (T.at m) a items
      → r.offset + r.length < 2 ^ 64
      → denote (ranges_from start r items) x
        ≡ (if in_range r.offset r.length x then some r.value else denote items x)
  unfolding denote ranges_from extend
  denote_ranges start a x r [] le asc f = ground arith
  denote_ranges start a x r (ie ∷ items) le asc f =
      let fi = valid.fits ie.offset ie asc.1 in
      ground (
        arith,
        denote_ranges start (suc ie.offset) x (extend r ie.length) items,
        denote_ranges start (suc ie.offset) x ie items,
        continues_iff r ie f,
        add64-eq r.length ie.length,
      )

  pub Runs-ranges :
      (start a e : ℕ) (prev : Option V) (r : RangeValue V) (items : List (RangeValue V))
      → start ≤ a
      → Ascending (T.at m) a items
      → r.offset + r.length < 2 ^ 64
      → r.offset + r.length ≤ a
      → e ≤ r.offset
      → (e ≡ r.offset → prev ≢ some r.value)
      → 0 < r.length
      → Runs e prev (ranges_from start r items)
  unfolding ranges_from extend
  Runs-ranges start a e prev r [] le asc f ends ge ne pos =
      let t : ltb 0 r.length ≡ true = ground arith in rw t (pos, ge, ne, tt)
  Runs-ranges start a e prev r (ie ∷ items) le asc f ends ge ne pos =
      let fi = valid.fits ie.offset ie asc.1 in
      let asc' = Ascending-past ie items asc in
      let not_clipped : ltb ie.offset start ≡ false = ground arith in
      let pending : ltb 0 r.length ≡ true = ground arith in
      elim (Bool-cases (continues r ie)) [
        | inl joins ↦
            let (same, at_end) = (continues_iff r ie f).0 joins in
            let len = add64-eq r.length ie.length (omega arith) in
            rw (not_clipped, joins)
              (Runs-ranges start (ie.offset + ie.length) e prev (extend r ie.length) items
                (omega arith) asc' (omega (arith, len)) (omega (arith, len)) ge ne
                (omega (arith, len)))
        | inr apart ↦
            rw (not_clipped, apart, pending)
              (
                pos,
                ge,
                ne,
                Runs-ranges start (ie.offset + ie.length) (r.offset + r.length) (some r.value) ie
                    items (omega arith) asc' fi.1 (omega arith) (omega arith)
                    (λ at_end same. ground (arith, continues_iff r ie f)) fi.0,
              )
      ]

  -- `Iterate` from `start`: the ranges before the first one that the callback refuses.
  unfoldable pub iterate_ranges : ℕ → List (RangeValue V)
  iterate_ranges start =
      ranges_from start zero_range (T.ascend_greater_or_equal (first_key T m start) m)

  pub iterate-feed :
      {S : Type 0} (iter : S → RangeValue V → S × Bool) (start : ℕ) (s : S)
      → iterate T iter m start s ≡ feed iter s (iterate_ranges start)
  unfolding iterate iterate_ranges
  iterate-feed iter start s = iterate_items-feed iter start zero_range s _
