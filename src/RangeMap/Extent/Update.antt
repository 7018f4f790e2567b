-- ===== src/RangeMap/Extent/Update.antt =====
-- `Remove` and `Add` of internal/rangemap/extent_range_map.go, as updates of the map that `Get`
-- shows.
use logblock.Prelude.{
  ℕ, ◌+◌, ◌^◌, ◌≤◌, ◌<◌, ◌≡◌, refl, sym, ◌∙◌, ◌↔◌, ◌⊎◌, inl, inr, true, false, Option, none, some,
  arith, Bool-cases, Option-cases, dec_lt, ℕ_discrete, ◌==◌, if◌then◌else◌, subst, Option-ext,
}
use mathlib.Core.Path.{fun_ext}
use logblock.RangeMap.{RangeValue}
use logblock.RangeMap.Spec.{in_range}
use logblock.RangeMap.RadixTree.{RadixTree}
use logblock.RangeMap.Extent.{remove, add, get}
use logblock.RangeMap.Extent.Invariant.{IsValid, Fits, Inside, Covers}
use logblock.RangeMap.Extent.Carve.{Cleared}
use logblock.RangeMap.Extent.Remove.{remove_punches, Punched, insert_new_lem}
use logblock.RangeMap.Extent.Lookup.{get_iff}

module _ {V : Type 0} (T : RadixTree V) (m : T.Tree) (valid : IsValid (T.at m)) (o len : ℕ) where
  module _ (small : o + len < 2 ^ 64) (pos : 0 < len) (m' : T.Tree)
      (p : Punched T o len small pos m m') where
    punched_hole : (x : ℕ) → in_range o len x ≡ true → get T m' x ≡ none
    punched_hole x h = elim (Option-cases (get T m' x)) [
      | inl e ↦ e
      | inr (v, e) ↦
          let c = (get_iff T m' p.valid x v).0 e in
          absurd (ground (arith, p.cleared c.item.offset c.item))
    ]

    punched_kept : (x : ℕ) → in_range o len x ≡ false → get T m' x ≡ get T m x
    punched_kept x h =
        let out : (x < o) ⊎ (o + len ≤ x) = ground arith in
        Option-ext _ _ (λ v. (
          λ e. (get_iff T m valid x v).1 (p.from x v out ((get_iff T m' p.valid x v).0 e)),
          λ e. (get_iff T m' p.valid x v).1 (p.kept x v out ((get_iff T m valid x v).0 e)),
        ))

    punched_get : (x : ℕ) → get T m' x ≡ (if in_range o len x then none else get T m x)
    punched_get x = elim (Bool-cases (in_range o len x)) [
      | inl h ↦ rw h (punched_hole x h)
      | inr h ↦ rw h (punched_kept x h)
    ]

  remove-zero : ¬ (0 < len) → remove T m o len ≡ some m
  unfolding remove
  remove-zero h = ground arith

  empty_range : ¬ (0 < len) → (x : ℕ) → in_range o len x ≡ false
  empty_range h x = ground arith

  -- From a valid map `Remove` of a range that ends below 2^64 does not panic, keeps the map valid,
  -- makes `Get` find nothing in the range, and leaves `Get` as it was outside.
  pub get-remove :
      o + len < 2 ^ 64
      → (m' : T.Tree) × (remove T m o len ≡ some m')
        × IsValid (T.at m')
        × ((x : ℕ) → get T m' x ≡ (if in_range o len x then none else get T m x))
  get-remove small = elim (dec_lt 0 len) [
    | yes pos ↦
        let (m', returned, p) = remove_punches T m valid o len small pos in
        (m', returned, p.valid, punched_get small pos m' p)
    | no zero_len ↦ (m, remove-zero zero_len, valid, λ x. rw (empty_range zero_len x))
  ]

-- The view of a tree with one more extent, where the extents of the tree are clear of it.
module _ {V : Type 0} (at : ℕ → Option (RangeValue V)) (valid : IsValid at) (new : RangeValue V)
    (f : Fits new) (clear : Cleared at new.offset (new.offset + new.length) 0) where
  abbrev extended : ℕ → Option (RangeValue V)
  extended j = if new.offset == j then some new else at j

  extended-IsValid : IsValid extended
  extended-IsValid = record {
    key = λ j r h. ground (arith, valid.key j r);
    fits = λ j r h. ground (arith, valid.fits j r);
    apart = λ j k r s hj hk lt. ground (
      arith,
      valid.apart j k r s,
      clear j r,
      clear k s,
      valid.fits j r,
      valid.fits k s,
      valid.key j r,
      valid.key k s,
    );
  }

  not_at_new : at new.offset ≡ none
  not_at_new = elim (Option-cases (at new.offset)) [
    | inl h ↦ h
    | inr (r, h) ↦
        absurd (ground (arith, clear new.offset r, valid.fits new.offset r, valid.key new.offset r))
  ]

  pub Covers-extended :
      (x : ℕ) (v : V) → Covers extended x v ↔ ((Inside new x × (new.value ≡ v)) ⊎ Covers at x v)
  Covers-extended x v = (
    λ c. elim (ℕ_discrete new.offset c.item.offset) [
      | yes same ↦
          let e : c.item ≡ new = ground (arith, c.stored) in
          inl (ground (arith, c.inside), ground (arith, c.holds))
      | no other ↦ inr (record {
        item = c.item;
        stored = ground (arith, c.stored);
        inside = c.inside;
        holds = c.holds;
      })
    ],
    elim [
      | inl (i, h) ↦ record { item = new; stored = ground arith; inside = i; holds = h }
      | inr c ↦ record {
        item = c.item;
        stored = ground (arith, c.stored, not_at_new);
        inside = c.inside;
        holds = c.holds;
      }
    ],
  )

module _ {V : Type 0} (T : RadixTree V) (m : T.Tree) (valid : IsValid (T.at m)) (o len : ℕ)
    (value : V) where
  abbrev new_item : RangeValue V
  new_item = record { range = record { offset = o; length = len }; value = value }

  add-zero : ¬ (0 < len) → add T m o len value ≡ some m
  unfolding add
  add-zero h = ground arith

  add-eq :
      (m' : T.Tree)
      → 0 < len
      → remove T m o len ≡ some m'
      → T.at m' o ≡ none
      → add T m o len value ≡ some (T.replace_or_insert new_item m').1
  unfolding add
  add-eq m' pos h free =
      let nonzero : (len == 0) ≡ false = ground arith in
      rw (nonzero, h) (insert_new_lem T new_item m' free)

  -- From a valid map `Add` of a range that ends below 2^64 does not panic, keeps the map valid, makes
  -- `Get` find the value everywhere in the range, and leaves `Get` as it was outside.
  pub get-add :
      o + len < 2 ^ 64
      → (m' : T.Tree) × (add T m o len value ≡ some m')
        × IsValid (T.at m')
        × ((x : ℕ) → get T m' x ≡ (if in_range o len x then some value else get T m x))
  get-add small = elim (dec_lt 0 len) [
    | no zero_len ↦ (m, add-zero zero_len, valid, λ x. rw (empty_range T m valid o len zero_len x))
    | yes pos ↦
        let (m1, returned, p) = remove_punches T m valid o len small pos in
        let f : Fits new_item = (pos, small) in
        let m2 = (T.replace_or_insert new_item m1).1 in
        let view : extended (T.at m1) p.valid new_item f p.cleared ≡ T.at m2 =
          sym (fun_ext (T.at-insert new_item m1)) in
        let valid2 = subst IsValid view (extended-IsValid (T.at m1) p.valid new_item f p.cleared) in
        let covers = λ (x : ℕ) (v : V).
          subst (λ at. Covers at x v ↔ ((Inside new_item x × (value ≡ v)) ⊎ Covers (T.at m1) x v))
            view (Covers-extended (T.at m1) p.valid new_item f p.cleared x v) in
        (
          m2,
          add-eq m1 pos returned (not_at_new (T.at m1) p.valid new_item f p.cleared),
          valid2,
          λ x. elim (Bool-cases (in_range o len x)) [
            | inl h ↦
                rw h
                  ((get_iff T m2 valid2 x value).1 ((covers x value).1 (inl (ground arith, refl))))
            | inr h ↦ rw h (
                Option-ext _ _ (λ v. (
                  λ e. elim ((covers x v).0 ((get_iff T m2 valid2 x v).0 e)) [
                    | inl i ↦ absurd (ground arith)
                    | inr c ↦
                        sym (punched_kept T m valid o len small pos m1 p x h)
                        ∙ (get_iff T m1 p.valid x v).1 c
                  ],
                  λ e. (get_iff T m2 valid2 x v).1 (
                      (covers x v).1 (
                        inr (
                          (get_iff T m1 p.valid x v).0
                            (punched_kept T m valid o len small pos m1 p x h ∙ e)))),
                )))
          ],
        )
  ]
