-- ===== src/App/Numerals.antt =====
-- The sizes and device names of internal/app/logblock that are numerals, and what they stand for.
use logblock.Prelude.{
  ℕ, zero, suc, ◌+◌, ◌-◌, ◌*◌, ◌%◌, ◌^◌, ◌≤◌, ◌<◌, ◌≡◌, refl, sym, ap, ◌∙◌, inl, inr, Bool, true,
  false, ◌&&◌, Option, none, some, List, [], ◌∷◌, ◌++◌, if◌then◌else◌, ltb, leb, ◌==◌, Bytes,
  length, arith, Bool-cases,
}
use native.Mathlib.Nat.{add-mul, mul_assoc, mul-le-mul_left, pow-suc, pow-succ'}
use logblock.App.{
  is_digit, parse_digits, parse_uint, span_digits, is_unit, size_parts, scale, is_zero,
  parse_size_string, nbd_prefix, after_prefix, parse_nbd_index,
}

-- The digits of a number are below 10.
unfoldable pub are_digits : List ℕ → Bool
are_digits [] = true
are_digits (d ∷ ds) = ltb d 10 && are_digits ds

-- The number that digits stand for
unfoldable pub value : List ℕ → ℕ
value [] = 0
value (d ∷ ds) = d * 10 ^ length ds + value ds

unfoldable pub numeral : List ℕ → Bytes
numeral [] = []
numeral (d ∷ ds) = (48 + d) ∷ numeral ds

pub data SizeUnit : Type 0 where
  ones megas gigas teras petas : SizeUnit

unfoldable pub unit_text : SizeUnit → Bytes
unit_text ones = []
unit_text megas = 77 ∷ []
unit_text gigas = 71 ∷ []
unit_text teras = 84 ∷ []
unit_text petas = 80 ∷ []

unfoldable pub factor : SizeUnit → ℕ
factor ones = 1
factor megas = 2 ^ 20
factor gigas = 2 ^ 30
factor teras = 2 ^ 40
factor petas = 2 ^ 50

abbrev below : ℕ → ℕ → Option ℕ
below limit n = if ltb n limit then some n else none

ten_pow_pos : (n : ℕ) → 0 < 10 ^ n
ten_pow_pos zero = omega arith
ten_pow_pos (suc n) = omega (arith, ten_pow_pos n, pow-suc 10 n)

two_pow_pos : (n : ℕ) → 0 < 2 ^ n
two_pow_pos zero = omega arith
two_pow_pos (suc n) = omega (arith, two_pow_pos n, pow-suc 2 n)

next_digit : (acc d n v : ℕ) → (acc * 10 + d) * 10 ^ n + v ≡ acc * 10 ^ suc n + (d * 10 ^ n + v)
next_digit acc d n v =
    let e : acc * 10 * 10 ^ n ≡ acc * 10 ^ suc n =
      mul_assoc acc 10 (10 ^ n) ∙ ap (λ t. acc * t) (sym (pow-succ' 10 n)) in
    omega (arith, add-mul (acc * 10) d (10 ^ n), e)

-- What is read so far is no more than the whole.
read_le : (acc n v : ℕ) → acc ≤ acc * 10 ^ n + v
read_le acc n v = omega (arith, mul-le-mul_left acc (ten_pow_pos n))

parse_digits_lem :
    (limit acc : ℕ) (ds : List ℕ)
    → are_digits ds ≡ true
    → acc < limit
    → parse_digits limit acc (numeral ds) ≡ below limit (acc * 10 ^ length ds + value ds)
unfolding parse_digits are_digits numeral value is_digit
parse_digits_lem limit acc [] ok small = ground arith
parse_digits_lem limit acc (d ∷ ds) ok small =
    let sub : 48 + d - 48 ≡ d = omega arith in
    let digit : d < 10 = ground (arith, ok) in
    rw sub (
      rw (← next_digit acc d (length ds) (value ds)) (elim (Bool-cases (ltb (acc * 10 + d) limit)) [
        | inl fits ↦ ground (
          arith,
          fits,
          parse_digits_lem limit (acc * 10 + d) ds (ground (arith, ok)) (ground (arith, fits)),
        )
        | inr over ↦ ground (arith, over, read_le (acc * 10 + d) (length ds) (value ds))
      ]))

span_digits-unit_text : (u : SizeUnit) → span_digits (unit_text u) ≡ ([], unit_text u)
unfolding span_digits unit_text is_digit
span_digits-unit_text ones = refl
span_digits-unit_text megas = refl
span_digits-unit_text gigas = refl
span_digits-unit_text teras = refl
span_digits-unit_text petas = refl

span_digits_lem :
    (ds : List ℕ) (u : SizeUnit)
    → are_digits ds ≡ true
    → span_digits (numeral ds ++ unit_text u) ≡ (numeral ds, unit_text u)
unfolding span_digits are_digits numeral is_digit
span_digits_lem [] u ok = span_digits-unit_text u
span_digits_lem (d ∷ ds) u ok =
    let digit : d < 10 = ground (arith, ok) in
    let is : (leb 48 (48 + d) && leb (48 + d) 57) ≡ true = ground arith in
    rw is (ap (λ r. ((48 + d) ∷ r.0, r.1)) (span_digits_lem ds u (ground (arith, ok))))

is_unit-unit_text : (u : SizeUnit) → is_unit (unit_text u) ≡ true
unfolding is_unit unit_text
is_unit-unit_text ones = refl
is_unit-unit_text megas = refl
is_unit-unit_text gigas = refl
is_unit-unit_text teras = refl
is_unit-unit_text petas = refl

size_parts_lem :
    (d : ℕ) (ds : List ℕ) (u : SizeUnit)
    → 0 < d
    → are_digits (d ∷ ds) ≡ true
    → size_parts (numeral (d ∷ ds) ++ unit_text u) ≡ some (numeral (d ∷ ds), unit_text u)
unfolding size_parts numeral are_digits
size_parts_lem d ds u pos ok =
    let digit : d < 10 = ground (arith, ok) in
    let first : (leb 49 (48 + d) && leb (48 + d) 57) ≡ true = ground arith in
    rw first (rw (span_digits_lem ds u (ground (arith, ok))) (rw (is_unit-unit_text u) refl))

is_zero_head : (c : ℕ) (cs : Bytes) → (c == 48) ≡ false → is_zero (c ∷ cs) ≡ false
unfolding is_zero
is_zero_head c [] h = h
is_zero_head c (b ∷ cs) h = refl

scale-unit_text :
    (u : SizeUnit) (n : ℕ) → n < 2 ^ 64 → scale (unit_text u) n ≡ n * factor u % 2 ^ 64
unfolding scale unit_text factor
scale-unit_text ones n h = omega arith
scale-unit_text megas n h = refl
scale-unit_text gigas n h = refl
scale-unit_text teras n h = refl
scale-unit_text petas n h = refl

parse_uint_lem :
    (bits d : ℕ) (ds : List ℕ)
    → are_digits (d ∷ ds) ≡ true
    → parse_uint bits (numeral (d ∷ ds)) ≡ below (2 ^ bits) (value (d ∷ ds))
unfolding parse_uint numeral
parse_uint_lem bits d ds ok =
    parse_digits_lem (2 ^ bits) 0 (d ∷ ds) ok (two_pow_pos bits)
    ∙ ap (below (2 ^ bits)) (omega arith)

-- ParseSizeString of digits, the first of them not 0, and a unit or none gives the number that the digits stand for,
-- times the unit, modulo 2^64, or an error if the digits alone stand for 2^64 or more.
pub parse_size_string_lem :
    (d : ℕ) (ds : List ℕ) (u : SizeUnit)
    → 0 < d
    → are_digits (d ∷ ds) ≡ true
    → parse_size_string (numeral (d ∷ ds) ++ unit_text u)
      ≡ (if ltb (value (d ∷ ds)) (2 ^ 64) then some (value (d ∷ ds) * factor u % 2 ^ 64) else none)
unfolding parse_size_string numeral
parse_size_string_lem d ds u pos ok =
    let not_zero = is_zero_head (48 + d) (numeral ds ++ unit_text u) (ground arith) in
    rw not_zero (
      rw (size_parts_lem d ds u pos ok, parse_size_string)
        (rw (parse_uint_lem 64 d ds ok, parse_size_string)
          (elim (Bool-cases (ltb (value (d ∷ ds)) (2 ^ 64))) [
            | inl fits ↦
                rw fits
                  (ap (λ n. some n) (scale-unit_text u (value (d ∷ ds)) (ground (arith, fits))))
            | inr over ↦ rw over refl
          ])))

-- ParseNbdIndex of "/dev/nbd" and digits, at least one, gives the number that they stand for, or an error if it is 2^32
-- or more.
pub parse_nbd_index_lem :
    (d : ℕ) (ds : List ℕ)
    → are_digits (d ∷ ds) ≡ true
    → parse_nbd_index (nbd_prefix ++ numeral (d ∷ ds))
      ≡ (if ltb (value (d ∷ ds)) (2 ^ 32) then some (value (d ∷ ds)) else none)
unfolding parse_nbd_index after_prefix
parse_nbd_index_lem d ds ok = parse_uint_lem 32 d ds ok
