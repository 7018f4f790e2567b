-- ===== src/RangeMap/Extent/Next.antt =====
-- `NextKey` and `NextEmpty` of internal/rangemap/extent_range_map.go.
use logblock.Prelude.{
  ℕ, suc, ◌+◌, ◌≤◌, ◌<◌, ◌≡◌, ◌≢◌, refl, ap, inl, inr, true, false, none, some, List, [], ◌∷◌,
  arith, Bool-cases, Option-cases, add64-eq, dec_lt, ◌==◌,
}
use logblock.RangeMap.{RangeValue, contains}
use logblock.RangeMap.Spec.{NextMapped, NextHole}
use logblock.RangeMap.RadixTree.{RadixTree, Ascending}
use logblock.RangeMap.Extent.{
  get, get_with_range, first_offset, next_key, next_empty, skip_adjacent,
}
use logblock.RangeMap.Extent.Invariant.{IsValid, Fits, Inside, Covers, contains_iff}
use logblock.RangeMap.Extent.Lookup.{get_iff, get_with_range_iff}

module _ {V : Type 0} (T : RadixTree V) (m : T.Tree) (valid : IsValid (T.at m)) where
  pub get_of_stored :
      (r : RangeValue V) (x : ℕ) → T.at m r.offset ≡ some r → Inside r x → get T m x ≢ none
  get_of_stored r x h i e =
      let c : Covers (T.at m) x r.value = record {
        item = r;
        stored = h;
        inside = i;
        holds = refl;
      } in
      cc ((get_iff T m valid x r.value).1 c)

  -- Where no extent covers `x`, `Get` finds nothing.
  pub get-none :
      (x : ℕ) → ((r : RangeValue V) → T.at m r.offset ≡ some r → Inside r x → ⊥) → get T m x ≡ none
  get-none x h = elim (Option-cases (get T m x)) [
    | inl e ↦ e
    | inr (v, e) ↦ let c = (get_iff T m valid x v).0 e in absurd (h c.item c.stored c.inside)
  ]

  -- With `x` empty, what covers a later key starts after `x`.
  starts_after :
      (x y : ℕ) (r : RangeValue V)
      → get T m x ≡ none
      → T.at m r.offset ≡ some r
      → Inside r y
      → x ≤ y
      → x ≤ r.offset
  starts_after x y r empty h i le = elim (dec_lt r.offset x) [
    | yes before ↦ absurd (get_of_stored r x h (omega arith, omega arith) empty)
    | no after ↦ omega arith
  ]

  first_offset_lem :
      (x : ℕ) (items : List (RangeValue V))
      → get T m x ≡ none
      → Ascending (T.at m) x items
      → NextMapped (get T m) x (first_offset items)
  unfolding first_offset
  first_offset_lem x [] empty a =
      λ y le. get-none y (λ r h i. ground (arith, a r.offset, starts_after x y r empty h i le))
  first_offset_lem x (ie ∷ items) empty a = (
    a.0,
    get_of_stored ie ie.offset a.1 (omega arith, omega (arith, (valid.fits ie.offset ie a.1).0)),
    λ y le lt. get-none y (λ r h i. ground (arith, a.2 r.offset, starts_after x y r empty h i le)),
  )

  next_key_mapped : (x : ℕ) (v : V) → get T m x ≡ some v → next_key T m x ≡ some x
  unfolding next_key
  next_key_mapped x v e = rw (e, next_key)

  next_key_empty :
      (x : ℕ) → get T m x ≡ none → next_key T m x ≡ first_offset (T.ascend_greater_or_equal x m)
  unfolding next_key
  next_key_empty x e = rw (e, next_key)

  -- `NextKey` finds the first mapped key from `x` on, and reports that there is none exactly if every
  -- key from `x` on is empty.
  pub next_key-NextMapped : (x : ℕ) → NextMapped (get T m) x (next_key T m x)
  next_key-NextMapped x = elim (Option-cases (get T m x)) [
    | inr (v, e) ↦
        rw (next_key_mapped x v e) (omega arith, λ h. cc, λ y le lt. absurd (omega arith))
    | inl e ↦ rw (next_key_empty x e) (
        first_offset_lem x (T.ascend_greater_or_equal x m) e
          (T.ascend_greater_or_equal-Ascending x m))
  ]

  -- `prev` is the extent that ends at `next`, so only an extent that starts there covers `next`.
  at_end_of :
      (prev r : RangeValue V) (next : ℕ)
      → T.at m prev.offset ≡ some prev
      → prev.offset + prev.length ≡ next
      → T.at m r.offset ≡ some r
      → Inside r next
      → r.offset ≡ next
  at_end_of prev r next hp e hr i = ground (
    arith,
    valid.apart r.offset prev.offset r prev,
    valid.apart prev.offset r.offset prev r,
    valid.fits prev.offset prev,
  )

  skip_adjacent_miss :
      (ie : RangeValue V) (items : List (RangeValue V)) (next : ℕ)
      → contains ie.range next ≡ false
      → skip_adjacent next (ie ∷ items) ≡ next
  unfolding skip_adjacent
  skip_adjacent_miss ie items next h = rw h

  skip_adjacent_hit :
      (ie : RangeValue V) (items : List (RangeValue V)) (next : ℕ)
      → Fits ie
      → contains ie.range next ≡ true
      → skip_adjacent next (ie ∷ items) ≡ skip_adjacent (ie.offset + ie.length) items
  unfolding skip_adjacent
  skip_adjacent_hit ie items next f h =
      rw h (ap (λ n. skip_adjacent n items) (add64-eq ie.offset ie.length f.1))

  -- No extent starts inside another.
  pub none_inside :
      (ie : RangeValue V)
      → T.at m ie.offset ≡ some ie
      → (j : ℕ) → suc ie.offset ≤ j
      → j < ie.offset + ie.length
      → T.at m j ≡ none
  none_inside ie stored j gt lt = elim (Option-cases (T.at m j)) [
    | inl h ↦ h
    | inr (r, h) ↦ absurd (omega (arith, valid.apart ie.offset j ie r stored h gt))
  ]

  -- A hole search that goes on from the end of an extent goes on from anywhere inside it.
  NextHole-from :
      (ie : RangeValue V) (x n : ℕ)
      → T.at m ie.offset ≡ some ie
      → Inside ie x
      → NextHole (get T m) (ie.offset + ie.length) n
      → NextHole (get T m) x n
  NextHole-from ie x n stored i h = (
    omega arith,
    h.1,
    λ y ge lt. elim (dec_lt y (ie.offset + ie.length)) [
      | yes inner ↦ get_of_stored ie y stored (omega arith, omega arith)
      | no outer ↦ h.2 y (omega arith) lt
    ],
  )

  skip_adjacent_lem :
      (items : List (RangeValue V)) (prev : RangeValue V) (a next : ℕ)
      → T.at m prev.offset ≡ some prev
      → prev.offset + prev.length ≡ next
      → a ≤ next
      → ((j : ℕ) → a ≤ j → j < next → T.at m j ≡ none)
      → Ascending (T.at m) a items
      → NextHole (get T m) next (skip_adjacent next items)
  skip_adjacent_lem [] prev a next hp e le gap asc =
      unfold skip_adjacent in
      (
        omega arith,
        get-none next (λ r h i. ground (arith, at_end_of prev r next hp e h i, asc r.offset)),
        λ y ge lt. absurd (omega arith),
      )
  skip_adjacent_lem (ie ∷ items) prev a next hp e le gap asc =
      let f = valid.fits ie.offset ie asc.1 in
      let test = contains_iff ie next f in
      elim (Bool-cases (contains ie.range next)) [
        | inr miss ↦ rw (skip_adjacent_miss ie items next miss) (
          omega arith,
          get-none next (λ r h i.
              ground (arith, test, at_end_of prev r next hp e h i, asc.2 r.offset, gap ie.offset)),
          λ y ge lt. absurd (omega arith),
        )
        | inl hit ↦ rw (skip_adjacent_hit ie items next f hit) (
            NextHole-from ie next _ asc.1 (test.0 hit) (
              skip_adjacent_lem items ie (suc ie.offset) (ie.offset + ie.length) asc.1 refl
                (omega arith) (none_inside ie asc.1) asc.3))
      ]

  next_empty_hole : (x : ℕ) → get_with_range T m x ≡ none → next_empty T m x ≡ x
  unfolding next_empty
  next_empty_hole x e = rw (e, next_empty)

  next_empty-Inside :
      (x : ℕ) (ie : RangeValue V)
      → get_with_range T m x ≡ some ie
      → Fits ie
      → Inside ie x
      → next_empty T m x
        ≡ skip_adjacent
            (ie.offset + ie.length)
            (T.ascend_greater_or_equal (ie.offset + ie.length) m)
  unfolding next_empty
  next_empty-Inside x ie e f i =
      let past : (ie.offset + ie.length == x) ≡ false = ground arith in
      rw (e, next_empty, add64-eq ie.offset ie.length f.1, past)

  -- `NextEmpty` finds the first empty key from `x` on.
  pub next_empty-NextHole : (x : ℕ) → NextHole (get T m) x (next_empty T m x)
  next_empty-NextHole x = elim (Option-cases (get_with_range T m x)) [
    | inl e ↦
        rw (next_empty_hole x e)
          (omega arith, unfold get in rw (e, get), λ y ge lt. absurd (omega arith))
    | inr (ie, e) ↦
        let (stored, i) = (get_with_range_iff T m valid x ie).0 e in
        let f = valid.fits ie.offset ie stored in
        let next = ie.offset + ie.length in
        rw (next_empty-Inside x ie e f i) (
          NextHole-from ie x _ stored i (
            skip_adjacent_lem (T.ascend_greater_or_equal next m) ie next next stored refl
              (omega arith) (λ j ge lt. absurd (omega arith))
              (T.ascend_greater_or_equal-Ascending next m)))
  ]
