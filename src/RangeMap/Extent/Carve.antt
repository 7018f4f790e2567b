-- ===== src/RangeMap/Extent/Carve.antt =====
-- What one round of the loop of `Remove` in internal/rangemap/extent_range_map.go leaves of the
-- extent `ie`, on the view `at` of the tree: the parts of it before `o` and from `e` on.
use logblock.Prelude.{
  ℕ, suc, ◌+◌, ◌-◌, ◌≤◌, ◌<◌, ◌≡◌, ◌≢◌, ◌⊎◌, inl, inr, Option, none, some, arith, Option-cases,
  ℕ_discrete, ltb, ◌==◌, if◌then◌else◌,
}
use logblock.RangeMap.{RangeValue}
use logblock.RangeMap.Extent.Invariant.{IsValid, Fits, Covers}

module _ {V : Type 0} where
  abbrev pub front : ℕ → RangeValue V → RangeValue V
  front o ie = record ie { range = record { offset = ie.offset; length = o - ie.offset } }

  abbrev pub back : ℕ → RangeValue V → RangeValue V
  back e ie = record ie { range = record { offset = e; length = ie.offset + ie.length - e } }

  unfoldable pub carve :
      ℕ → ℕ → RangeValue V → (ℕ → Option (RangeValue V)) → ℕ → Option (RangeValue V)
  carve o e ie at j =
      if ie.offset == j
      then (if ltb ie.offset o then some (front o ie) else none)
      else if e == j
      then (if ltb e (ie.offset + ie.length) then some (back e ie) else at j)
      else at j

  -- No extent from key `b` on meets `o` to `e`.
  abbrev pub Cleared : (ℕ → Option (RangeValue V)) → ℕ → ℕ → ℕ → Type 0
  Cleared at o e b =
      (j : ℕ) (r : RangeValue V) → b ≤ j → at j ≡ some r → (e ≤ j) ⊎ (j + r.length ≤ o)

module _ {V : Type 0} (at : ℕ → Option (RangeValue V)) (valid : IsValid at) (o e : ℕ)
    (ie : RangeValue V) (order : o < e) (stored : at ie.offset ≡ some ie) (below : ie.offset < e)
    (meets : o < ie.offset + ie.length) where
  abbrev ie_fits : Fits ie
  ie_fits = valid.fits ie.offset ie stored

  pub carve-IsValid : IsValid (carve o e ie at)
  unfolding carve
  carve-IsValid = record {
    key = λ j r h. ground (arith, valid.key j r);
    fits = λ j r h. ground (arith, valid.fits j r, ie_fits);
    apart = λ j k r s hj hk lt. ground (
      arith,
      ie_fits,
      valid.apart j k r s,
      valid.apart j ie.offset r ie,
      valid.apart ie.offset k ie s,
      valid.apart ie.offset j ie r,
    );
  }

  pub carve-Cleared : Cleared at o e (suc ie.offset) → Cleared (carve o e ie at) o e ie.offset
  unfolding carve
  carve-Cleared c j r le h = ground (arith, c j r)

  pub carve_below : (j : ℕ) → j < ie.offset → carve o e ie at j ≡ at j
  unfolding carve
  carve_below j lt = ground arith

  end_free : e < ie.offset + ie.length → at e ≡ none
  end_free lt = elim (Option-cases (at e)) [
    | inl h ↦ h
    | inr (s, h) ↦ absurd (omega (arith, valid.apart ie.offset e ie s stored h below))
  ]

  carve_other :
      (r : RangeValue V)
      → r.offset ≢ ie.offset
      → at r.offset ≡ some r
      → carve o e ie at r.offset ≡ some r
  unfolding carve
  carve_other r ne h = ground (arith, end_free)

  -- An extent that covers a point is `ie` or lies elsewhere.
  item_cases : (r : RangeValue V) → at r.offset ≡ some r → (r ≡ ie) ⊎ (r.offset ≢ ie.offset)
  item_cases r h = elim (ℕ_discrete r.offset ie.offset) [
    | yes same ↦ inl (ground arith)
    | no other ↦ inr other
  ]

  pub Covers-carve :
      (x : ℕ) (v : V) → (x < o) ⊎ (e ≤ x) → Covers at x v → Covers (carve o e ie at) x v
  unfolding carve
  Covers-carve x v out c = elim (item_cases c.item c.stored) [
    | inr other ↦ record {
      item = c.item;
      stored = unfold carve in carve_other c.item other c.stored;
      inside = c.inside;
      holds = c.holds;
    }
    | inl same ↦ elim out [
      | inl before ↦ record {
        item = front o ie;
        stored = ground arith;
        inside = ground arith;
        holds = ground arith;
      }
      | inr after ↦ record {
        item = back e ie;
        stored = ground arith;
        inside = ground arith;
        holds = ground arith;
      }
    ]
  ]

  -- What is stored after the round comes from `ie`, or was there.
  carved_cases :
      (r : RangeValue V)
      → carve o e ie at r.offset ≡ some r
      → ((r ≡ front o ie) × (ie.offset < o)) ⊎ (r ≡ back e ie) ⊎ (at r.offset ≡ some r)
  unfolding carve
  carved_cases r h = ground arith

  pub Covers-uncarve :
      (x : ℕ) (v : V) → (x < o) ⊎ (e ≤ x) → Covers (carve o e ie at) x v → Covers at x v
  Covers-uncarve x v out c = elim (carved_cases c.item c.stored) [
    | inl (head, lt) ↦ record {
      item = ie;
      stored = stored;
      inside = ground arith;
      holds = ground arith;
    }
    | inr (inl tail) ↦ record {
      item = ie;
      stored = stored;
      inside = ground arith;
      holds = ground arith;
    }
    | inr (inr old) ↦ record { item = c.item; stored = old; inside = c.inside; holds = c.holds }
  ]
