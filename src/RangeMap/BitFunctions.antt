-- ===== src/RangeMap/BitFunctions.antt =====
-- Bit sets as Boolean functions: they have the laws that internal/rangemap/bitmap_range_map.go relies on.
use logblock.Prelude.{
  ℕ, zero, suc, ◌+◌, ◌-◌, ◌≤◌, ◌<◌, ◌≡◌, refl, inl, inr, Bool, true, false, not, ◌&&◌, Option, none,
  some, arith, if◌then◌else◌, ltb, ◌==◌, Bool-cases,
}
use logblock.RangeMap.BitSets.{Bitmap256, BitSet}

-- The first index from `i` on that passes the test, or `i + n`
unfoldable pub scan : (ℕ → Bool) → ℕ → ℕ → ℕ
scan p zero i = i
scan p (suc n) i = let rest = scan p n (i + 1) in if p i then i else rest

scan_bounds : (p : ℕ → Bool) (n i : ℕ) → (i ≤ scan p n i) × (scan p n i ≤ i + n)
unfolding scan
scan_bounds p zero i = omega arith
scan_bounds p (suc n) i = ground (arith, scan_bounds p n (i + 1))

scan_passed : (p : ℕ → Bool) (n i j : ℕ) → i ≤ j → j < scan p n i → p j ≡ false
unfolding scan
scan_passed p zero i j above under = absurd (omega arith)
scan_passed p (suc n) i j above under = elim (Bool-cases (i == j)) [
  | inl here ↦ let e : i ≡ j = ground (arith, here) in ground arith
  | inr later ↦ ground (arith, scan_passed p n (i + 1) j)
]

scan_found : (p : ℕ → Bool) (n i : ℕ) → scan p n i < i + n → p (scan p n i) ≡ true
unfolding scan
scan_found p zero i h = absurd (omega arith)
scan_found p (suc n) i h = ground (arith, scan_found p n (i + 1))

-- The least such index among all 256, or 256
abbrev pub first_of : (ℕ → Bool) → ℕ → ℕ
first_of p i = scan p (256 - i) i

module _ (p : ℕ → Bool) where
  pub first_of_law :
      (i : ℕ)
      → i < 256
      → (i ≤ first_of p i)
        × ((j : ℕ) → i ≤ j → j < 256 → j < first_of p i → p j ≡ false)
        × (first_of p i < 256 → p (first_of p i) ≡ true)
  first_of_law i small = (
    omega (arith, scan_bounds p (256 - i) i),
    λ j above below under. scan_passed p (256 - i) i j above under,
    λ h. scan_found p (256 - i) i (omega arith),
  )

  pub nowhere : ltb (scan p 256 0) 256 ≡ false → (i : ℕ) → i < 256 → p i ≡ false
  nowhere h i below = scan_passed p 256 0 i (omega arith) (ground (arith, h))

  pub somewhere : ltb (scan p 256 0) 256 ≡ true → (i : ℕ) × (i < 256) × (p i ≡ true)
  somewhere h =
      let below : scan p 256 0 < 256 = ground (arith, h) in
      (scan p 256 0, below, scan_found p 256 0 (omega arith))

pub not-false : (b : Bool) → not b ≡ false → b ≡ true
not-false b h = ground arith

pub not-true : (b : Bool) → not b ≡ true → b ≡ false
not-true b h = ground arith

abbrev pub bitmap_function : Bitmap256
bitmap_function = record {
  Bits = ℕ → Bool;
  no_bits = λ i. false;
  get = λ b i. b i;
  put = λ b i j. if i == j then true else b j;
  is_empty = λ b. not (ltb (scan b 256 0) 256);
  is_full = λ b. not (ltb (scan (λ i. not (b i)) 256 0) 256);
  find_next_set = λ b i. first_of b i;
  find_next_clear = λ b i. first_of (λ i. not (b i)) i;
  get_no_bits = λ i. refl;
  get-put = λ b i j h k. refl;
  empty_true = λ b h i below. nowhere b (not-true (ltb (scan b 256 0) 256) h) i below;
  empty_false = λ b h. somewhere b (not-false (ltb (scan b 256 0) 256) h);
  full_true = λ b h i below.
      not-false (b i)
        (nowhere (λ i. not (b i)) (not-true (ltb (scan (λ i. not (b i)) 256 0) 256) h) i below);
  full_false = λ b h.
      let s = somewhere (λ i. not (b i)) (not-false (ltb (scan (λ i. not (b i)) 256 0) 256) h) in
      (s.0, s.1, not-true (b s.0) s.2);
  next_set = λ b i small. first_of_law b i small;
  next_clear = λ b i small.
      let law = first_of_law (λ i. not (b i)) i small in
      (
        law.0,
        λ j above below under. not-false (b j) (law.1 j above below under),
        λ h. not-true (b (first_of (λ i. not (b i)) i)) (law.2 h),
      );
}

-- A set with a length, beyond which it has no bits
pub record Sized : Type 0 where
  pub bits : ℕ → Bool
  pub size : ℕ

unfoldable pub member : Sized → ℕ → Bool
member b i = b.bits i && ltb i b.size

unfoldable pub search_from : (ℕ → Bool) → ℕ → ℕ → Option ℕ
search_from p size i = let n = scan p (size - i) i in if ltb n size then some n else none

pub search_some :
    (p : ℕ → Bool) (size i n : ℕ)
    → search_from p size i ≡ some n
    → (i ≤ n) × (p n ≡ true) × ((j : ℕ) → i ≤ j → j < n → p j ≡ false)
unfolding search_from
search_some p size i n h = elim (Bool-cases (ltb (scan p (size - i) i) size)) [
  | inl less ↦
      let e : scan p (size - i) i ≡ n = ground (arith, h) in
      let b = scan_bounds p (size - i) i in
      let small : scan p (size - i) i < size = ground (arith, less) in
      (
        omega (arith, e, b),
        rw (← e) (scan_found p (size - i) i (omega (arith, b))),
        λ j above under. scan_passed p (size - i) i j above (omega (arith, e)),
      )
  | inr past ↦ absurd (ground (arith, h))
]

pub search_none :
    (p : ℕ → Bool) (size i : ℕ)
    → search_from p size i ≡ none
    → (j : ℕ) → i ≤ j
    → j < size
    → p j ≡ false
unfolding search_from
search_none p size i h j above below =
    scan_passed p (size - i) i j above (ground (arith, h, scan_bounds p (size - i) i))

abbrev pub put_member : Sized → ℕ → Sized
put_member b i = record {
  bits = λ j. if i == j then true else member b j;
  size = if ltb i b.size then b.size else i + 1;
}

pub member_none : (i : ℕ) → member (record { bits = λ j. false; size = 0 }) i ≡ false
unfolding member
member_none i = refl

pub member-lt : (b : Sized) (i : ℕ) → member b i ≡ true → i < b.size
unfolding member
member-lt b i h = ground arith

pub member-put :
    (b : Sized) (i j : ℕ) → member (put_member b i) j ≡ (if i == j then true else member b j)
unfolding member
member-put b i j = ground arith

pub member_search :
    (b : Sized) (i : ℕ)
    → search_from (member b) b.size i ≡ none
    → (j : ℕ) → i ≤ j
    → member b j ≡ false
member_search b i h j above = elim (Bool-cases (ltb j b.size)) [
  | inl below ↦ search_none (member b) b.size i h j above (ground (arith, below))
  | inr past ↦ elim (Bool-cases (member b j)) [
    | inl set ↦ absurd (ground (arith, past, member-lt b j set))
    | inr clear ↦ clear
  ]
]

abbrev pub bit_set_function : BitSet
bit_set_function = record {
  Bits = Sized;
  no_bits = record { bits = λ i. false; size = 0 };
  test = member;
  put = put_member;
  len = λ b. b.size;
  next_set = λ b i. search_from (member b) b.size i;
  next_clear = λ b i. search_from (λ j. not (member b j)) b.size i;
  test_no_bits = member_none;
  test-put = member-put;
  test_len = member-lt;
  next_set_some = λ b i n h. search_some (member b) b.size i n h;
  next_set_none = member_search;
  next_clear_some = λ b i n h.
      let s = search_some (λ j. not (member b j)) b.size i n h in
      (s.0, not-true (member b n) s.1, λ j above under. not-false (member b j) (s.2 j above under));
  next_clear_none = λ b i h j above below.
      not-false (member b j) (search_none (λ j. not (member b j)) b.size i h j above below);
}
