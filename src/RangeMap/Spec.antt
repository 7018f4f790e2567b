-- ===== src/RangeMap/Spec.antt =====
-- What the interface of internal/rangemap/range_map.go promises, over the map `g` from keys to
-- values that `Get` shows. Both implementations are proved against it.
use logblock.Prelude.{
  ℕ, ◌+◌, ◌≤◌, ◌<◌, ◌≡◌, ◌≢◌, Bool, Option, none, some, leb, ltb, ◌&&◌, List, [], ◌∷◌,
  if◌then◌else◌,
}
use logblock.RangeMap.{RangeValue}

-- `o <= x < o + len`
abbrev pub in_range : ℕ → ℕ → ℕ → Bool
in_range o len x = leb o x && ltb x (o + len)

module _ {V : Type 0} (g : ℕ → Option V) where
  -- No key is mapped from `a` on, before `b`.
  abbrev pub AllEmpty : ℕ → ℕ → Type 0
  AllEmpty a b = (y : ℕ) → a ≤ y → y < b → g y ≡ none

  abbrev pub AllMapped : ℕ → ℕ → Type 0
  AllMapped a b = (y : ℕ) → a ≤ y → y < b → g y ≢ none

  -- The first mapped key from `x` on, if there is one.
  abbrev pub NextMapped : ℕ → Option ℕ → Type 0
  NextMapped x none = (y : ℕ) → x ≤ y → g y ≡ none
  NextMapped x (some n) = (x ≤ n) × (g n ≢ none) × AllEmpty x n

  -- The first empty key from `x` on.
  abbrev pub NextHole : ℕ → ℕ → Type 0
  NextHole x n = (x ≤ n) × (g n ≡ none) × AllMapped x n

module _ {V : Type 0} where
  -- The map that a list of ranges stands for.
  unfoldable pub denote : List (RangeValue V) → ℕ → Option V
  denote [] x = none
  denote (r ∷ ranges) x = if in_range r.offset r.length x then some r.value else denote ranges x

  -- Ascending ranges, none empty, after one that ends at `e` with the value `prev`: where one begins
  -- at the end of the one before, the value is another.
  abbrev pub Runs : ℕ → Option V → List (RangeValue V) → Type 0
  Runs e prev [] = Unit
  Runs e prev (r ∷ ranges) =
      (0 < r.length)
      × (e ≤ r.offset)
      × (e ≡ r.offset → prev ≢ some r.value)
      × Runs (r.offset + r.length) (some r.value) ranges

  -- A callback over a list of ranges: the first `false` is the last call.
  unfoldable pub feed : {S : Type 0} → (S → RangeValue V → S × Bool) → S → List (RangeValue V) → S
  feed iter s [] = s
  feed iter s (r ∷ ranges) =
      let rest = feed iter (iter s r).0 ranges in if (iter s r).1 then rest else (iter s r).0
