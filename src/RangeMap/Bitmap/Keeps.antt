-- ===== src/RangeMap/Bitmap/Keeps.antt =====
-- An iteration of `Add` of internal/rangemap/bitmap_range_map.go keeps the map well-formed.
use logblock.Prelude.{
  ℕ, ◌+◌, ◌/◌, ◌%◌, ◌≤◌, ◌<◌, ◌≡◌, refl, sym, ap, subst, ◌∙◌, inl, inr, Bool, true, false, none,
  some, arith, if◌then◌else◌, ◌&&◌, ◌==◌, Bool-cases, Option-cases,
}
use logblock.RangeMap.Spec.{in_range}
use logblock.RangeMap.BitSets.{Bitmap256, BitSet}
use logblock.RangeMap.Bitmap.{Leaf, BitmapRangeMap, insert, get_or_create_leaf, add_leaf}
use logblock.RangeMap.Bitmap.Invariant.{IsValid, Full, Nonempty}
use logblock.RangeMap.Bitmap.Leaves.{insert-bits}

apart : (b : Bool) → b ≡ true → b ≡ false → ⊥
apart b p q = ground arith

module _ (B : Bitmap256) where
  nonempty_lem : (b : B.Bits) → (j : ℕ) × (j < 256) × (B.get b j ≡ true) → B.is_empty b ≡ false
  nonempty_lem b (j, below, set) = elim (Bool-cases (B.is_empty b)) [
    | inl none_set ↦ absurd (apart (B.get b j) set (B.empty_true b none_set j below))
    | inr some_set ↦ some_set
  ]

  no_bits_empty : B.is_empty B.no_bits ≡ true
  no_bits_empty = elim (Bool-cases (B.is_empty B.no_bits)) [
    | inl none_set ↦ none_set
    | inr some_set ↦
        let (j, below, set) = B.empty_false B.no_bits some_set in
        absurd (apart (B.get B.no_bits j) set (B.get_no_bits j))
  ]

module _ (B : Bitmap256) (S : BitSet) {V : Type 0} where
  module _ (z : V) (m : BitmapRangeMap B S V) (valid : IsValid B S m) (offset n : ℕ) (v : V)
      (pos : 0 < n) (fits : offset % 256 + n ≤ 256) where
    abbrev leaf_index : ℕ
    leaf_index = offset / 256

    -- The leaf before and after
    abbrev old : Leaf B V
    old = get_or_create_leaf B S z m leaf_index

    abbrev new : Leaf B V
    new = insert B S n (offset % 256) v old

    new_bits :
        (j : ℕ)
        → j < 256
        → B.get new.bm j ≡ (if in_range (offset % 256) n j then true else B.get old.bm j)
    new_bits j below = insert-bits B S n (offset % 256) v old j fits below

    new-Nonempty : Nonempty B S new
    new-Nonempty =
        (offset % 256, omega arith, ground (arith, new_bits (offset % 256) (omega arith)))

    old-some : (l : Leaf B V) → m.entries leaf_index ≡ some l → old ≡ l
    unfolding get_or_create_leaf
    old-some l e = rw (e, get_or_create_leaf) refl

    old-none : m.entries leaf_index ≡ none → old ≡ record { bm = B.no_bits; items = λ j. z }
    unfolding get_or_create_leaf
    old-none e = rw (e, get_or_create_leaf) refl

    -- The leaf before is empty only if it is made.
    old_empty : (l : Leaf B V) → m.entries leaf_index ≡ some l → B.is_empty old.bm ≡ false
    old_empty l e =
        ap (λ k. B.is_empty k.bm) (old-some l e)
        ∙ nonempty_lem B l.bm (valid.leaf_nonempty leaf_index l e)

    old_created : m.entries leaf_index ≡ none → B.is_empty old.bm ≡ true
    old_created e = ap (λ k. B.is_empty k.bm) (old-none e) ∙ no_bits_empty B

    part_test :
        (i : ℕ)
        → S.test (add_leaf B S z offset n v m).part_leaf_index i
          ≡ (if leaf_index == i then true else S.test m.part_leaf_index i)
    unfolding add_leaf
    part_test i = elim (Option-cases (m.entries leaf_index)) [
      | inl e ↦ rw (old_created e) (S.test-put m.part_leaf_index leaf_index i)
      | inr (l, e) ↦ rw (old_empty l e) (ground (arith, valid.leaf_part leaf_index l e))
    ]

    full_test :
        (i : ℕ)
        → S.test (add_leaf B S z offset n v m).full_leaf_index i
          ≡ (if B.is_full new.bm && leaf_index == i then true else S.test m.full_leaf_index i)
    unfolding add_leaf
    full_test i = ground (arith, S.test-put m.full_leaf_index leaf_index i)

    entry :
        (i : ℕ)
        → (add_leaf B S z offset n v m).entries i
          ≡ (if leaf_index == i then some new else m.entries i)
    unfolding add_leaf
    entry i = refl

    -- A leaf that was full stays full.
    grown : (l : Leaf B V) → m.entries leaf_index ≡ some l → Full B S l → Full B S new
    grown l e all j below =
        new_bits j below ∙ ground (arith, ap (λ k. B.get k.bm j) (old-some l e), all j below)

    is_full-Full : Full B S new → B.is_full new.bm ≡ true
    is_full-Full all = elim (Bool-cases (B.is_full new.bm)) [
      | inl h ↦ h
      | inr h ↦
          let (j, below, clear) = B.full_false new.bm h in
          absurd (apart (B.get new.bm j) (all j below) clear)
    ]

    module _ (i : ℕ) (here : (leaf_index == i) ≡ true) where
      at : leaf_index ≡ i
      at = ground (arith, here)

      entry_here : (add_leaf B S z offset n v m).entries i ≡ some new
      entry_here = entry i ∙ rw here refl

      leaf_here : (l : Leaf B V) → (add_leaf B S z offset n v m).entries i ≡ some l → new ≡ l
      leaf_here l e = cc entry_here

      Full-here : S.test (add_leaf B S z offset n v m).full_leaf_index i ≡ true → Full B S new
      Full-here h = elim (Bool-cases (B.is_full new.bm)) [
        | inl all ↦ B.full_true new.bm all
        | inr part ↦
            let was : S.test m.full_leaf_index i ≡ true = ground (arith, full_test i) in
            let (l, e, all) = valid.full_leaf i was in grown l (ap m.entries at ∙ e) all
      ]

    module _ (i : ℕ) (other : (leaf_index == i) ≡ false) where
      entry_other : (add_leaf B S z offset n v m).entries i ≡ m.entries i
      entry_other = entry i ∙ rw other refl

      part_other :
          S.test (add_leaf B S z offset n v m).part_leaf_index i ≡ S.test m.part_leaf_index i
      part_other = part_test i ∙ rw other refl

      full_other :
          S.test (add_leaf B S z offset n v m).full_leaf_index i ≡ S.test m.full_leaf_index i
      full_other = full_test i ∙ ground (arith, other)

    pub add_leaf-IsValid : IsValid B S (add_leaf B S z offset n v m)
    add_leaf-IsValid = record {
      part_leaf = λ i h. elim (Bool-cases (leaf_index == i)) [
        | inl here ↦ (new, entry_here i here)
        | inr other ↦
            let (l, e) = valid.part_leaf i (sym (part_other i other) ∙ h) in
            (l, entry_other i other ∙ e)
      ];
      leaf_part = λ i l e. elim (Bool-cases (leaf_index == i)) [
        | inl here ↦ part_test i ∙ rw here refl
        | inr other ↦ part_other i other ∙ valid.leaf_part i l (sym (entry_other i other) ∙ e)
      ];
      leaf_nonempty = λ i l e. elim (Bool-cases (leaf_index == i)) [
        | inl here ↦ subst (Nonempty B S) (leaf_here i here l e) new-Nonempty
        | inr other ↦ valid.leaf_nonempty i l (sym (entry_other i other) ∙ e)
      ];
      full_leaf = λ i h. elim (Bool-cases (leaf_index == i)) [
        | inl here ↦ (new, entry_here i here, Full-here i here h)
        | inr other ↦
            let (l, e, all) = valid.full_leaf i (sym (full_other i other) ∙ h) in
            (l, entry_other i other ∙ e, all)
      ];
      leaf_full = λ i l e all. elim (Bool-cases (leaf_index == i)) [
        | inl here ↦
            let full = is_full-Full (subst (Full B S) (sym (leaf_here i here l e)) all) in
            full_test i ∙ ground (arith, here, full)
        | inr other ↦ full_other i other ∙ valid.leaf_full i l (sym (entry_other i other) ∙ e) all
      ];
    }
