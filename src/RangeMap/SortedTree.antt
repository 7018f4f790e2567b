-- ===== src/RangeMap/SortedTree.antt =====
-- The assumptions on the radix tree can be met: sorted lists of extents are such a tree. The tests
-- and the examples run on it.
use logblock.Prelude.{
  ℕ, suc, ◌≤◌, ◌<◌, ◌≡◌, refl, true, false, Option, none, some, List, [], ◌∷◌, arith, ltb, leb,
  ◌==◌, if◌then◌else◌, dec_lt,
}
use logblock.RangeMap.{RangeValue}
use logblock.RangeMap.RadixTree.{RadixTree, Ascending, Descending}

module _ {V : Type 0} where
  abbrev pub Sorted : ℕ → List (RangeValue V) → Type 0
  Sorted a [] = Unit
  Sorted a (r ∷ items) = (a ≤ r.offset) × Sorted (suc r.offset) items

  unfoldable pub find : List (RangeValue V) → ℕ → Option (RangeValue V)
  find [] j = none
  find (r ∷ items) j = if r.offset == j then some r else find items j

  unfoldable pub insert : RangeValue V → List (RangeValue V) → List (RangeValue V)
  insert r [] = r ∷ []
  insert r (s ∷ items) =
      let rest = insert r items in
      if ltb s.offset r.offset
      then s ∷ rest
      else if r.offset == s.offset
      then r ∷ items
      else r ∷ s ∷ items

  unfoldable pub erase : ℕ → List (RangeValue V) → List (RangeValue V)
  erase k [] = []
  erase k (s ∷ items) = let rest = erase k items in if k == s.offset then items else s ∷ rest

  unfoldable pub from_key : ℕ → List (RangeValue V) → List (RangeValue V)
  from_key k [] = []
  from_key k (s ∷ items) = let rest = from_key k items in if ltb s.offset k then rest else s ∷ items

  -- The items with a key up to `k`, in descending order, before `acc`.
  unfoldable pub down_from : ℕ → List (RangeValue V) → List (RangeValue V) → List (RangeValue V)
  down_from k [] acc = acc
  down_from k (s ∷ items) acc =
      let rest = down_from k items (s ∷ acc) in if leb s.offset k then rest else acc

  unfoldable pub down : List (RangeValue V) → List (RangeValue V) → List (RangeValue V)
  down [] acc = acc
  down (s ∷ items) acc = down items (s ∷ acc)

  pub find-nil : (j : ℕ) → find [] j ≡ none
  unfolding find
  find-nil j = refl

  find_below :
      (a j : ℕ) (items : List (RangeValue V)) → Sorted a items → j < a → find items j ≡ none
  unfolding find
  find_below a j [] s lt = refl
  find_below a j (r ∷ items) s lt = ground (arith, find_below (suc r.offset) j items s.1)

  pub Sorted-insert :
      (a : ℕ) (r : RangeValue V) (items : List (RangeValue V))
      → a ≤ r.offset
      → Sorted a items
      → Sorted a (insert r items)
  unfolding insert
  Sorted-insert a r [] le s = (le, tt)
  Sorted-insert a r (t ∷ items) le s = ground (arith, Sorted-insert (suc t.offset) r items)

  Sorted-widen : (a b : ℕ) (items : List (RangeValue V)) → a ≤ b → Sorted b items → Sorted a items
  Sorted-widen a b [] le s = tt
  Sorted-widen a b (r ∷ items) le s = (omega arith, s.1)

  pub Sorted-erase :
      (a k : ℕ) (items : List (RangeValue V)) → Sorted a items → Sorted a (erase k items)
  unfolding erase
  Sorted-erase a k [] s = tt
  Sorted-erase a k (r ∷ items) s =
      ground (arith, Sorted-erase (suc r.offset) k items, Sorted-widen a (suc r.offset) items)

  pub find-insert :
      (a : ℕ) (r : RangeValue V) (items : List (RangeValue V)) (j : ℕ)
      → Sorted a items
      → find (insert r items) j ≡ (if r.offset == j then some r else find items j)
  unfolding find insert
  find-insert a r [] j s = refl
  find-insert a r (t ∷ items) j s = ground (arith, find-insert (suc t.offset) r items j)

  pub find-erase :
      (a k : ℕ) (items : List (RangeValue V)) (j : ℕ)
      → Sorted a items
      → find (erase k items) j ≡ (if k == j then none else find items j)
  unfolding find erase
  find-erase a k [] j s = ground arith
  find-erase a k (t ∷ items) j s =
      ground (arith, find-erase (suc t.offset) k items j, find_below (suc t.offset) j items)

  module _ (at : ℕ → Option (RangeValue V)) where
    pub ascending :
        (a : ℕ) (items : List (RangeValue V))
        → Sorted a items
        → ((j : ℕ) → a ≤ j → at j ≡ find items j)
        → Ascending at a items
    unfolding find
    ascending a [] s same = λ j le. same j le
    ascending a (r ∷ items) s same = (
      s.0,
      ground (arith, same r.offset),
      λ j le lt. ground (arith, same j, find_below (suc r.offset) j items),
      ascending (suc r.offset) items s.1 (λ j le. ground (arith, same j)),
    )

    pub Ascending-from :
        (a k : ℕ) (items : List (RangeValue V))
        → Sorted a items
        → ((j : ℕ) → k ≤ j → at j ≡ find items j)
        → Ascending at k (from_key k items)
    unfolding from_key find
    Ascending-from a k [] s same = λ j le. same j le
    Ascending-from a k (r ∷ items) s same = elim (dec_lt r.offset k) [
      | yes lt ↦
          let t : ltb r.offset k ≡ true = ground arith in
          rw t (Ascending-from (suc r.offset) k items s.1 (λ j le. ground (arith, same j)))
      | no ge ↦
          let t : ltb r.offset k ≡ false = ground arith in
          rw t (unfold find in ascending k (r ∷ items) (omega arith, s.1) same)
    ]

    widen :
        (a b : ℕ) (acc : List (RangeValue V))
        → a ≤ b
        → ((j : ℕ) → a ≤ j → j < b → at j ≡ none)
        → Descending at a acc
        → Descending at b acc
    widen a b [] le gap d =
        λ j lt. elim (dec_lt j a) [ yes old ↦ d j old | no new ↦ gap j (omega arith) lt ]
    widen a b (r ∷ acc) le gap d = (
      omega arith,
      d.1,
      λ j gt lt. elim (dec_lt j a) [ yes old ↦ d.2 j gt old | no new ↦ gap j (omega arith) lt ],
      d.3,
    )

    pub Descending-from :
        (a k : ℕ) (items acc : List (RangeValue V))
        → a ≤ suc k
        → Sorted a items
        → ((j : ℕ) → a ≤ j → at j ≡ find items j)
        → Descending at a acc
        → Descending at (suc k) (down_from k items acc)
    unfolding down_from
    Descending-from a k [] acc le s same d =
        widen a (suc k) acc le (λ j ge lt. unfold find in same j ge) d
    Descending-from a k (r ∷ items) acc le s same d = elim (dec_lt k r.offset) [
      | yes past ↦
          let t : leb r.offset k ≡ false = ground arith in
          rw t (
            widen a (suc k) acc le
              (λ j ge lt. unfold find in ground (arith, same j, find_below (suc r.offset) j items))
              d)
      | no here ↦
          let t : leb r.offset k ≡ true = ground arith in
          rw t (
            Descending-from (suc r.offset) k items (r ∷ acc) (omega arith) s.1
              (λ j ge. unfold find in ground (arith, same j))
              (
                omega arith,
                unfold find in ground (arith, same r.offset),
                λ j gt lt. absurd (omega arith),
                widen a r.offset acc s.0
                    (λ j ge lt.
                      unfold find in ground (arith, same j, find_below (suc r.offset) j items))
                    d,
              ))
    ]

    -- Nothing is stored from `a` on or from `b` on, so either bound will do.
    rebound :
        (a b : ℕ) (acc : List (RangeValue V))
        → ((j : ℕ) → a ≤ j → at j ≡ none)
        → ((j : ℕ) → b ≤ j → at j ≡ none)
        → Descending at a acc
        → Descending at b acc
    rebound a b [] ha hb d =
        λ j lt. elim (dec_lt j a) [ yes old ↦ d j old | no new ↦ ha j (omega arith) ]
    rebound a b (r ∷ acc) ha hb d = (
      elim (dec_lt r.offset b) [ yes lt ↦ lt | no ge ↦ absurd (ground (arith, hb r.offset, d.1)) ],
      d.1,
      λ j gt lt. elim (dec_lt j a) [ yes old ↦ d.2 j gt old | no new ↦ ha j (omega arith) ],
      d.3,
    )

    pub Descending-all :
        (a b : ℕ) (items acc : List (RangeValue V))
        → Sorted a items
        → ((j : ℕ) → a ≤ j → at j ≡ find items j)
        → ((j : ℕ) → b ≤ j → at j ≡ none)
        → Descending at a acc
        → Descending at b (down items acc)
    unfolding down
    Descending-all a b [] acc s same hb d = rebound a b acc (λ j ge. unfold find in same j ge) hb d
    Descending-all a b (r ∷ items) acc s same hb d =
        Descending-all (suc r.offset) b items (r ∷ acc) s.1
          (λ j ge. unfold find in ground (arith, same j)) hb
          (
            omega arith,
            unfold find in ground (arith, same r.offset),
            λ j gt lt. absurd (omega arith),
            widen a r.offset acc s.0
                (λ j ge lt.
                  unfold find in ground (arith, same j, find_below (suc r.offset) j items))
                d,
          )

abbrev pub SortedList : Type 0 → Type 0
SortedList V = (items : List (RangeValue V)) × Sorted 0 items

-- The tree of sorted lists.
abbrev pub sorted_tree : (V : Type 0) → RadixTree V
sorted_tree V = record {
  Tree = SortedList V;
  empty = ([], tt);
  at = λ t. find t.0;
  replace_or_insert =
      λ r t. (find t.0 r.offset, (insert r t.0, Sorted-insert 0 r t.0 (omega arith) t.1));
  delete = λ r t. (find t.0 r.offset, (erase r.offset t.0, Sorted-erase 0 r.offset t.0 t.1));
  ascend = λ t. t.0;
  ascend_greater_or_equal = λ k t. from_key k t.0;
  descend_less_or_equal = λ k t. down_from k t.0 [];
  descend = λ t. down t.0 [];
  at-empty = find-nil;
  old-insert = λ r t. refl;
  at-insert = λ r t j. find-insert 0 r t.0 j t.1;
  old-delete = λ r t. refl;
  at-delete = λ r t j. find-erase 0 r.offset t.0 j t.1;
  ascend-Ascending = λ t. ascending (find t.0) 0 t.0 t.1 (λ j le. refl);
  ascend_greater_or_equal-Ascending = λ k t. Ascending-from (find t.0) 0 k t.0 t.1 (λ j le. refl);
  descend_less_or_equal-Descending = λ k t.
      Descending-from (find t.0) 0 k t.0 [] (omega arith) t.1 (λ j le. refl)
        (λ j lt. absurd (omega arith));
  descend-Descending = λ t b hb.
      Descending-all (find t.0) 0 b t.0 [] t.1 (λ j le. refl) hb (λ j lt. absurd (omega arith));
}
