-- ===== src/RangeMap/Extent/Iterate.antt =====
-- `Iterate` of internal/rangemap/extent_range_map.go: it hands the callback the runs of keys with
-- one value. The callback is a function from what it has gathered to that and whether to go on.
pub mod Runs
pub mod All
use logblock.Prelude.{
  ℕ, ◌+◌, ◌-◌, Bool, ◌&&◌, Option, none, some, List, [], ◌∷◌, ltb, ◌==◌, if◌then◌else◌, add64,
  sub64, Comparable,
}
use logblock.RangeMap.{RangeValue}
use logblock.RangeMap.RadixTree.{RadixTree}
use logblock.RangeMap.Extent.{get_with_range}

module _ {V : Type 0} where
  -- `(ie.Offset + ie.Length) - start` keys from `start` on
  unfoldable pub clip : ℕ → RangeValue V → RangeValue V
  clip start ie = record {
    range = record { offset = start; length = sub64 (add64 ie.offset ie.length) start };
    value = ie.value;
  }

  unfoldable pub extend : RangeValue V → ℕ → RangeValue V
  extend r len = record r { range = record { offset = r.offset; length = add64 r.length len } }

module _ {V : Type 0} ⦃c : Comparable V⦄ where
  unfoldable pub continues : RangeValue V → RangeValue V → Bool
  continues r ie = c.beq r.value ie.value && ie.offset == add64 r.offset r.length

  abbrev pub zero_range : RangeValue V
  zero_range = record { range = record { offset = 0; length = 0 }; value = c.zero_value }

  module _ {S : Type 0} (iter : S → RangeValue V → S × Bool) where
    -- The callback of the last iteration with `r` pending, and the call after it.
    unfoldable pub iterate_items : ℕ → RangeValue V → S → List (RangeValue V) → S
    iterate_items start r s [] = if ltb 0 r.length then (iter s r).0 else s
    iterate_items start r s (ie ∷ items) =
        let clipped = iterate_items start (clip start ie) s items in
        let extended = iterate_items start (extend r ie.length) s items in
        let called = iterate_items start ie (iter s r).0 items in
        let fresh = iterate_items start ie s items in
        if ltb ie.offset start
        then clipped
        else if continues r ie
        then extended
        else if ltb 0 r.length
        then (if (iter s r).1 then called else (iter s r).0)
        else fresh

module _ {V : Type 0} ⦃c : Comparable V⦄ (T : RadixTree V) where
  -- Where the last iteration begins.
  unfoldable pub first_key : T.Tree → ℕ → ℕ
  first_key m start =
      if ltb 0 start
      then elim (get_with_range T m start) [ none ↦ start | some ie ↦ ie.offset ]
      else start

  unfoldable pub iterate : {S : Type 0} → (S → RangeValue V → S × Bool) → T.Tree → ℕ → S → S
  iterate iter m start s =
      iterate_items iter start zero_range s (T.ascend_greater_or_equal (first_key m start) m)
