-- ===== src/RangeMap/Extent/Iterate/All.antt =====
-- Where `Iterate` of internal/rangemap/extent_range_map.go begins, and what all its calls show.
use logblock.Prelude.{
  ℕ, suc, ◌+◌, ◌-◌, ◌≤◌, ◌<◌, ◌≡◌, refl, ◌∙◌, ap, ◌⊎◌, inl, inr, Bool, true, false, none, some,
  List, [], ◌∷◌, arith, if◌then◌else◌, add64, add64-eq, sub64, sub64-eq, ltb, leb, Comparable,
  Bool-cases, Option-cases, dec_lt,
}
use logblock.RangeMap.{RangeValue}
use logblock.RangeMap.Spec.{in_range, Runs, denote, feed}
use logblock.RangeMap.RadixTree.{RadixTree, Ascending}
use logblock.RangeMap.Extent.{get, get_with_range}
use logblock.RangeMap.Extent.Invariant.{IsValid, Fits, Inside, Covers}
use logblock.RangeMap.Extent.Lookup.{get_iff, get_with_range_iff, Inside-unique}
use logblock.RangeMap.Extent.Next.{none_inside}
use logblock.RangeMap.Extent.Iterate.{clip, extend, continues, zero_range, first_key, iterate}
use logblock.RangeMap.Extent.Iterate.Runs.{
  ranges_from, continues_iff, Ascending-past, denote_items, denote_ranges, Runs-ranges,
  iterate_ranges, iterate-feed,
}

module _ {V : Type 0} ⦃c : Comparable V⦄ (T : RadixTree V) (m : T.Tree)
    (valid : IsValid (T.at m)) where
  -- No extent reaches across `start`.
  abbrev NoneAcross : ℕ → Type 0
  NoneAcross start =
      (r : RangeValue V) (x : ℕ)
      → T.at m r.offset ≡ some r
      → Inside r x
      → start ≤ x
      → start ≤ r.offset

  -- Where the iteration begins: at `start` with nothing across it, or at the extent across it.
  record Across (start : ℕ) : Type 0 where
    ie : RangeValue V
    stored : T.at m ie.offset ≡ some ie
    inside : Inside ie start
    before : ie.offset < start
    begins : first_key T m start ≡ ie.offset

  first_key_cases : (start : ℕ) → ((first_key T m start ≡ start) × NoneAcross start) ⊎ Across start
  unfolding first_key
  first_key_cases start = elim (Option-cases (get_with_range T m start)) [
    | inl e ↦ inl (
      rw (e, first_key) (ground arith),
      λ r x h i le. elim (dec_lt r.offset start) [
        | no ge ↦ omega arith
        | yes lt ↦
            absurd
              (cc (e, (get_with_range_iff T m valid start r).1 (h, (omega arith, omega arith))))
      ],
    )
    | inr (ie, e) ↦
        let (stored, i) = (get_with_range_iff T m valid start ie).0 e in
        elim (dec_lt ie.offset start) [
          | yes lt ↦
              let pos : ltb 0 start ≡ true = ground arith in
              inr (record {
                ie = ie;
                stored = stored;
                inside = i;
                before = lt;
                begins = rw (e, first_key, pos);
              })
          | no ge ↦ inl (
            rw (e, first_key) (ground arith),
            λ r x h j le. ground (
              arith,
              Inside-unique (T.at m) valid r ie start h stored,
              valid.fits ie.offset ie stored,
            ),
          )
        ]
  ]

  denote_below :
      (a x : ℕ) (items : List (RangeValue V))
      → Ascending (T.at m) a items
      → x < a
      → denote items x ≡ none
  unfolding denote
  denote_below a x [] asc lt = refl
  denote_below a x (ie ∷ items) asc lt = ground (arith, denote_below (suc ie.offset) x items asc.3)

  -- Nothing is pending at first.
  ranges_zero :
      (start : ℕ) (ie : RangeValue V) (items : List (RangeValue V))
      → start ≤ ie.offset
      → Fits ie
      → ranges_from start zero_range (ie ∷ items) ≡ ranges_from start ie items
  unfolding ranges_from extend
  ranges_zero start ie items le f =
      let e = add64-eq 0 ie.length (omega arith) in
      let not_clipped : ltb ie.offset start ≡ false = ground arith in
      elim (Bool-cases (continues zero_range ie)) [
        | inr fresh ↦ rw (not_clipped, fresh)
        | inl joins ↦
            let (same, at_zero) = (continues_iff zero_range ie (omega arith)).0 joins in
            let whole : extend zero_range ie.length ≡ ie = ground arith in
            rw (not_clipped, joins) (ap (λ (r : RangeValue V). ranges_from start r items) whole)
      ]

  ranges_clipped :
      (start : ℕ) (ie : RangeValue V) (items : List (RangeValue V))
      → ie.offset < start
      → ranges_from start zero_range (ie ∷ items) ≡ ranges_from start (clip start ie) items
  unfolding ranges_from
  ranges_clipped start ie items lt = let t : ltb ie.offset start ≡ true = ground arith in rw t

  -- What the list of ranges from `start` shows and how it is made.
  abbrev pub Shows : ℕ → List (RangeValue V) → Type 0
  Shows start ranges =
      ((x : ℕ) → denote ranges x ≡ (if leb start x then get T m x else none)) × Runs 0 none ranges

  Runs-clear :
      (start : ℕ) (items : List (RangeValue V))
      → Ascending (T.at m) start items
      → Runs 0 none (ranges_from start zero_range items)
  Runs-clear start [] asc = unfold ranges_from in tt
  Runs-clear start (ie ∷ items) asc =
      let f = valid.fits ie.offset ie asc.1 in
      rw (ranges_zero start ie items asc.0 f) (
        Runs-ranges T m valid start (ie.offset + ie.length) 0 none ie items (omega arith)
          (Ascending-past T m valid ie items asc) f.1 (omega arith) (omega arith) (λ e. λ h. cc)
          f.0)

  -- With nothing across `start` the iteration begins there.
  Shows-clear :
      (start : ℕ) (items : List (RangeValue V))
      → NoneAcross start
      → Ascending (T.at m) start items
      → Shows start (ranges_from start zero_range items)
  Shows-clear start items none_across asc = (
    λ x. elim (dec_lt x start) [
      | yes lt ↦
          denote_ranges T m valid start start x zero_range items (omega arith) asc (omega arith)
          ∙ ground (arith, denote_below start x items asc)
      | no ge ↦
          denote_ranges T m valid start start x zero_range items (omega arith) asc (omega arith)
          ∙ ground (
            arith,
            denote_items T m valid start x items asc (λ r h i. none_across r x h i (omega arith)),
          )
    ],
    Runs-clear start items asc,
  )

  -- The clipped extent, and what comes after it.
  shown :
      (start x : ℕ) (ie : RangeValue V) (items : List (RangeValue V)) (len : ℕ)
      → len ≡ ie.offset + ie.length - start
      → T.at m ie.offset ≡ some ie
      → Inside ie start
      → ie.offset < start
      → Ascending (T.at m) (ie.offset + ie.length) items
      → (if in_range start len x then some ie.value else denote items x)
        ≡ (if leb start x then get T m x else none)
  shown start x ie items len e stored i lt asc = elim (dec_lt x start) [
    | yes before ↦ ground (arith, denote_below (ie.offset + ie.length) x items asc)
    | no ge ↦ elim (dec_lt x (ie.offset + ie.length)) [
      | yes inner ↦
          let c : Covers (T.at m) x ie.value = record {
            item = ie;
            stored = stored;
            inside = (omega arith, inner);
            holds = refl;
          } in
          ground (arith, (get_iff T m valid x ie.value).1 c)
      | no outer ↦
          let rest = denote_items T m valid (ie.offset + ie.length) x items asc (λ r h j. ground (
            arith,
            valid.apart r.offset ie.offset r ie,
            Inside-unique (T.at m) valid r ie x h stored,
            j,
            none_inside T m valid ie stored r.offset,
          )) in
          ground (arith, rest)
    ]
  ]

  Shows-across :
      (start : ℕ) (ie : RangeValue V) (items : List (RangeValue V))
      → Inside ie start
      → ie.offset < start
      → Ascending (T.at m) ie.offset (ie ∷ items)
      → Shows start (ranges_from start zero_range (ie ∷ items))
  unfolding clip
  Shows-across start ie items i lt asc =
      let f = valid.fits ie.offset ie asc.1 in
      let next = ie.offset + ie.length in
      let asc' = Ascending-past T m valid ie items asc in
      let end_eq = add64-eq ie.offset ie.length f.1 in
      let len = sub64-eq next start (omega arith) f.1 in
      let len' : sub64 (add64 ie.offset ie.length) start ≡ next - start = rw end_eq len in
      rw (ranges_clipped start ie items lt) (
        λ x.
            denote_ranges T m valid start next x (clip start ie) items (omega arith) asc'
              (omega (arith, len'))
            ∙ shown start x ie items (sub64 (add64 ie.offset ie.length) start) len' asc.1 i lt asc',
        Runs-ranges T m valid start next 0 none (clip start ie) items (omega arith) asc'
            (omega (arith, len')) (omega (arith, len')) (omega arith) (λ e. λ h. cc)
            (omega (arith, len')),
      )

  Shows-at :
      (start : ℕ) (ie : RangeValue V) (items : List (RangeValue V))
      → T.at m ie.offset ≡ some ie
      → Inside ie start
      → ie.offset < start
      → Ascending (T.at m) ie.offset items
      → Shows start (ranges_from start zero_range items)
  Shows-at start ie [] stored i lt asc = absurd (cc (asc ie.offset (omega arith)))
  Shows-at start ie (head ∷ items) stored i lt asc =
      let same : head ≡ ie = ground (arith, asc.0, asc.1, asc.2 ie.offset) in
      Shows-across start head items (ground arith) (ground arith)
        (omega arith, asc.1, λ j ge less. absurd (omega arith), asc.3)

  Shows-iterate : (start : ℕ) → Shows start (iterate_ranges T m valid start)
  unfolding iterate_ranges
  Shows-iterate start = elim (first_key_cases start) [
    | inl (here, none_across) ↦ rw here (
        Shows-clear start (T.ascend_greater_or_equal start m) none_across
          (T.ascend_greater_or_equal-Ascending start m))
    | inr a ↦ rw a.begins (
        Shows-at start a.ie (T.ascend_greater_or_equal a.ie.offset m) a.stored a.inside a.before
          (T.ascend_greater_or_equal-Ascending a.ie.offset m))
  ]

  -- `Iterate` from `start` calls the callback on ranges that together show exactly what `Get` shows
  -- from `start` on, in ascending order, each as long as its value goes on, until a call answers
  -- `false`.
  pub iterate_lem :
      {S : Type 0} (iter : S → RangeValue V → S × Bool) (start : ℕ) (s : S)
      → Shows start (iterate_ranges T m valid start)
        × (iterate T iter m start s ≡ feed iter s (iterate_ranges T m valid start))
  iterate_lem iter start s = (Shows-iterate start, iterate-feed T m valid iter start s)
