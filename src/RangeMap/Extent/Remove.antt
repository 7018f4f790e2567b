-- ===== src/RangeMap/Extent/Remove.antt =====
-- `Remove` of internal/rangemap/extent_range_map.go: it punches a hole and never panics.
use logblock.Prelude.{
  ℕ, suc, ◌+◌, ◌^◌, ◌≤◌, ◌<◌, ◌≡◌, ◌≢◌, refl, sym, ◌∙◌, ◌↔◌, ◌⊎◌, inl, inr, true, false, Option,
  none, some, List, [], ◌∷◌, arith, Bool-cases, Option-cases, add64-eq, sub64-eq, ℕ_discrete, ltb,
  ◌==◌, if◌then◌else◌, subst,
}
use mathlib.Core.Path.{fun_ext}
use logblock.RangeMap.{Range, RangeValue, contains, overlaps}
use logblock.RangeMap.RadixTree.{RadixTree, Descending}
use logblock.RangeMap.Extent.{
  overlapping, get_byte_range, insert_new, delete_item, truncate, end_item, remove_item,
  remove_items, remove,
}
use logblock.RangeMap.Extent.Invariant.{IsValid, Fits, Covers}
use logblock.RangeMap.Extent.Carve.{
  front, back, carve, Cleared, carve-IsValid, carve-Cleared, carve_below, Covers-carve,
  Covers-uncarve,
}

module _ {V : Type 0} (T : RadixTree V) where
  pub insert_new_lem :
      (r : RangeValue V) (m : T.Tree)
      → T.at m r.offset ≡ none
      → insert_new T r m ≡ some (T.replace_or_insert r m).1
  unfolding insert_new
  insert_new_lem r m h = ground (arith, T.old-insert r m)

  delete_item_lem :
      (r : RangeValue V) (m : T.Tree)
      → T.at m r.offset ≡ some r
      → delete_item T r m ≡ some (T.delete r m).1
  unfolding delete_item
  delete_item_lem r m h = ground (arith, T.old-delete r m)

  -- The trees that the branches of the loop body end in.
  pub record Carved (o e : ℕ) (ie : RangeValue V) (m : T.Tree) : Type 0 where
    pub result : T.Tree
    pub returned : remove_item T o e ie m ≡ some result
    pub view : (j : ℕ) → T.at result j ≡ carve o e ie (T.at m) j

module _ {V : Type 0} (T : RadixTree V) (m : T.Tree) (valid : IsValid (T.at m)) (o e : ℕ)
    (ie : RangeValue V) (order : o < e) (stored : T.at m ie.offset ≡ some ie)
    (below : ie.offset < e) (meets : o < ie.offset + ie.length) where
  abbrev m1 : T.Tree
  m1 = (T.replace_or_insert (back e ie) m).1

  free : e < ie.offset + ie.length → T.at m e ≡ none
  free lt = elim (Option-cases (T.at m e)) [
    | inl h ↦ h
    | inr (s, h) ↦ absurd (omega (arith, valid.apart ie.offset e ie s stored h below))
  ]

  end_item-eq : e < ie.offset + ie.length → end_item T ie e ≡ back e ie
  unfolding end_item
  end_item-eq lt =
      let f = valid.fits ie.offset ie stored in
      ground (arith, add64-eq ie.offset ie.length f.1, sub64-eq (ie.offset + ie.length) e)

  -- The tree once the tail is in, and the tree at the end of the loop body.
  abbrev with_tail : T.Tree
  with_tail = if ltb e (ie.offset + ie.length) then m1 else m

  abbrev carved : T.Tree
  carved =
      if ltb ie.offset o
      then (T.replace_or_insert (front o ie) with_tail).1
      else (T.delete ie with_tail).1

  remove_item_returns : remove_item T o e ie m ≡ some carved
  unfolding remove_item truncate
  remove_item_returns =
      let f = valid.fits ie.offset ie stored in
      ground (
        arith,
        add64-eq ie.offset ie.length f.1,
        sub64-eq o ie.offset,
        end_item-eq,
        free,
        insert_new_lem T (back e ie) m,
        delete_item_lem T ie m,
        delete_item_lem T ie m1,
        T.at-insert (back e ie) m ie.offset,
      )

  carved_view : (j : ℕ) → T.at carved j ≡ carve o e ie (T.at m) j
  unfolding carve
  carved_view j = ground (
    arith,
    T.at-insert (front o ie) with_tail j,
    T.at-delete ie with_tail j,
    T.at-insert (back e ie) m j,
  )

  pub remove_item_lem : Carved T o e ie m
  remove_item_lem = record { result = carved; returned = remove_item_returns; view = carved_view }

module _ {V : Type 0} where
  overlaps_iff :
      (r : RangeValue V) (o len : ℕ)
      → Fits r
      → o + len < 2 ^ 64
      → 0 < len
      → (overlaps (record { offset = o; length = len }) r.range ≡ true)
        ↔ ((r.offset < o + len) × (o < r.offset + r.length))
  unfolding overlaps contains
  overlaps_iff r o len f small pos =
      let a = add64-eq r.offset r.length f.1 in let b = add64-eq o len small in ground arith

  -- Two views with the same extents have the same theorems.
  move_Descending :
      (at at' : ℕ → Option (RangeValue V)) (b : ℕ) (items : List (RangeValue V))
      → ((j : ℕ) → j < b → at' j ≡ at j)
      → Descending at b items
      → Descending at' b items
  move_Descending at at' b [] same d = λ j lt. same j lt ∙ d j lt
  move_Descending at at' b (r ∷ items) same d = (
    d.0,
    same r.offset d.0 ∙ d.1,
    λ j gt lt. same j lt ∙ d.2 j gt lt,
    move_Descending at at' r.offset items (λ j lt. same j (omega arith)) d.3,
  )

module _ {V : Type 0} (T : RadixTree V) (o len : ℕ) (small : o + len < 2 ^ 64) (pos : 0 < len) where
  abbrev e : ℕ
  e = o + len

  abbrev query : Range
  query = record { offset = o; length = len }

  -- What `Remove` leaves: no extent meets the range, and nothing outside the range has changed.
  pub record Punched (m m' : T.Tree) : Type 0 where
    pub valid : IsValid (T.at m')
    pub cleared : Cleared (T.at m') o e 0
    pub kept : (x : ℕ) (v : V) → (x < o) ⊎ (e ≤ x) → Covers (T.at m) x v → Covers (T.at m') x v
    pub from : (x : ℕ) (v : V) → (x < o) ⊎ (e ≤ x) → Covers (T.at m') x v → Covers (T.at m) x v

  record Loop (items : List (RangeValue V)) (m : T.Tree) : Type 0 where
    pub result : T.Tree
    pub returned : remove_items T o e (overlapping query e items) m ≡ some result
    pub punched : Punched m result

  -- Nothing was removed: the rest of the extents ends before the range.
  done :
      (items : List (RangeValue V)) (m : T.Tree)
      → IsValid (T.at m)
      → Cleared (T.at m) o e 0
      → overlapping query e items ≡ []
      → Loop items m
  unfolding remove_items
  done items m valid c none_left = record {
    result = m;
    returned = rw none_left;
    punched = record { valid = valid; cleared = c; kept = λ x v _ h. h; from = λ x v _ h. h };
  }

  -- The last extent that can meet the range does not.
  Cleared-all :
      (ie : RangeValue V) (m : T.Tree) (b : ℕ)
      → IsValid (T.at m)
      → Cleared (T.at m) o e b
      → T.at m ie.offset ≡ some ie
      → ie.offset + ie.length ≤ o
      → ((j : ℕ) → ie.offset < j → j < b → T.at m j ≡ none)
      → Cleared (T.at m) o e 0
  Cleared-all ie m b valid c stored ends gap j r le h =
      ground
        (arith, c j r, gap j, valid.apart j ie.offset r ie, valid.fits ie.offset ie, valid.key j r)

  -- One round, and the rest of the loop.
  round :
      (ie : RangeValue V) (items : List (RangeValue V)) (m : T.Tree)
      → (step : Carved T o e ie m) → Loop items step.result
      → overlapping query e (ie ∷ items) ≡ ie ∷ overlapping query e items
      → ((x : ℕ) (v : V) → (x < o) ⊎ (e ≤ x) → Covers (T.at m) x v ↔ Covers (T.at step.result) x v)
      → Loop (ie ∷ items) m
  unfolding remove_items
  round ie items m step rest chosen same = record {
    result = rest.result;
    returned = rw (chosen, step.returned) rest.returned;
    punched = record {
      valid = rest.punched.valid;
      cleared = rest.punched.cleared;
      kept = λ x v out h. rest.punched.kept x v out ((same x v out).0 h);
      from = λ x v out h. (same x v out).1 (rest.punched.from x v out h);
    };
  }

  -- The tests of the iteration's callback.
  scan_cases :
      (ie : RangeValue V) (items : List (RangeValue V))
      → ((ie.offset ≡ e) × (overlapping query e (ie ∷ items) ≡ overlapping query e items))
        ⊎ ((overlaps query ie.range ≡ true)
            × (overlapping query e (ie ∷ items) ≡ ie ∷ overlapping query e items))
        ⊎ ((ie.offset ≢ e)
            × (overlaps query ie.range ≡ false)
            × (overlapping query e (ie ∷ items) ≡ []))
  unfolding overlapping
  scan_cases ie items = elim (ℕ_discrete ie.offset e) [
    | yes skip ↦ inl (skip, ground arith)
    | no other ↦ elim (Bool-cases (overlaps query ie.range)) [
      | inl hit ↦ inr (inl (hit, ground arith))
      | inr miss ↦ inr (inr (other, miss, ground arith))
    ]
  ]

  loop :
      (items : List (RangeValue V)) (m : T.Tree) (b : ℕ)
      → IsValid (T.at m)
      → b ≤ suc e
      → Cleared (T.at m) o e b
      → Descending (T.at m) b items
      → Loop items m
  unfolding overlapping
  loop [] m b valid le c d = done [] m valid (λ j r _ h. ground (arith, c j r, d j)) refl
  loop (ie ∷ items) m b valid le c d =
      let f = valid.fits ie.offset ie d.1 in
      let meets = overlaps_iff ie o len f small pos in
      elim (scan_cases ie items) [
        | inl (at_end, skip) ↦
            let rest =
              loop items m ie.offset valid (omega arith) (λ j r ge h. inl (omega arith)) d.3 in
            record {
              result = rest.result;
              returned = rw skip rest.returned;
              punched = rest.punched;
            }
        | inr (inl (hit, chosen)) ↦
            let (below, above) = meets.0 hit in
            let step = remove_item_lem T m valid o e ie (omega arith) d.1 below above in
            let p : carve o e ie (T.at m) ≡ T.at step.result = sym (fun_ext step.view) in
            let valid' =
              subst IsValid p (carve-IsValid (T.at m) valid o e ie (omega arith) d.1 below above) in
            let clear' =
              carve-Cleared (T.at m) valid o e ie (omega arith) d.1 below above
                (λ j r ge h. ground (arith, c j r, d.2 j)) in
            round ie items m step
              (loop items step.result ie.offset valid' (omega arith)
                (subst (λ at. Cleared at o e ie.offset) p clear')
                (move_Descending (T.at m) (T.at step.result) ie.offset items
                  (λ j lt.
                    step.view j
                    ∙ carve_below (T.at m) valid o e ie (omega arith) d.1 below above j lt)
                  d.3))
              chosen
              (λ x v out. (
                λ h.
                    subst (λ at. Covers at x v) p
                      (Covers-carve (T.at m) valid o e ie (omega arith) d.1 below above x v out h),
                λ h.
                    Covers-uncarve (T.at m) valid o e ie (omega arith) d.1 below above x v out
                      (subst (λ at. Covers at x v) (sym p) h),
              ))
        | inr (inr (other, miss, stop)) ↦
            done (ie ∷ items) m valid (Cleared-all ie m b valid c d.1 (ground (arith, meets)) d.2)
              stop
      ]

module _ {V : Type 0} (T : RadixTree V) (m : T.Tree) (valid : IsValid (T.at m)) (o len : ℕ) where
  remove-eq-loop :
      o + len < 2 ^ 64
      → 0 < len
      → remove T m o len
        ≡ remove_items T o
            (o + len)
            (overlapping
              (record { offset = o; length = len })
              (o + len)
              (T.descend_less_or_equal (o + len) m))
            m
  unfolding remove get_byte_range
  remove-eq-loop small pos =
      let nonzero : (len == 0) ≡ false = ground arith in rw (nonzero, add64-eq o len small)

  -- `Remove` of a range that is not empty ends with the range punched out.
  pub remove_punches :
      (small : o + len < 2 ^ 64) (pos : 0 < len)
      → (m' : T.Tree) × (remove T m o len ≡ some m') × Punched T o len small pos m m'
  remove_punches small pos =
      let l =
        loop T o len small pos (T.descend_less_or_equal (o + len) m) m (suc (o + len)) valid
          (omega arith) (λ j r ge h. inl (omega arith))
          (T.descend_less_or_equal-Descending (o + len) m) in
      (l.result, remove-eq-loop small pos ∙ l.returned, l.punched)
