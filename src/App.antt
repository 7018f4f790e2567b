-- ===== src/App.antt =====
-- internal/app/logblock/parse_size.go and parse_nbd.go: the sizes and device names of the command line. A string is
-- its bytes. The pattern of sizes is a digit from 1 to 9, more digits, and an optional unit.
pub mod Numerals
mod Tests
use logblock.Prelude.{
  ℕ, ◌+◌, ◌-◌, ◌*◌, ◌%◌, ◌^◌, Bool, true, false, ◌&&◌, ◌||◌, Option, none, some, [], ◌∷◌,
  if◌then◌else◌, ltb, leb, ◌==◌, Bytes,
}

unfoldable pub is_digit : ℕ → Bool
is_digit c = leb 48 c && leb c 57

-- `strconv.ParseUint` in base 10 behind its first digit: what was read before, and what is left
unfoldable pub parse_digits : ℕ → ℕ → Bytes → Option ℕ
parse_digits limit acc [] = some acc
parse_digits limit acc (c ∷ cs) =
    let rest = parse_digits limit (acc * 10 + (c - 48)) cs in
    if is_digit c && ltb (acc * 10 + (c - 48)) limit then rest else none

-- `strconv.ParseUint(s, 10, bits)`, where an error is `none`
unfoldable pub parse_uint : ℕ → Bytes → Option ℕ
parse_uint bits [] = none
parse_uint bits (c ∷ cs) = parse_digits (2 ^ bits) 0 (c ∷ cs)

-- The digits at the start, and the rest
unfoldable pub span_digits : Bytes → Bytes × Bytes
span_digits [] = ([], [])
span_digits (c ∷ cs) =
    let rest = span_digits cs in if is_digit c then (c ∷ rest.0, rest.1) else ([], c ∷ cs)

-- `([MGTP])?$`
unfoldable pub is_unit : Bytes → Bool
is_unit [] = true
is_unit (c ∷ []) = c == 77 || c == 71 || c == 84 || c == 80
is_unit (c ∷ b ∷ cs) = false

-- `sizePattern.FindStringSubmatch`: the number and the unit
unfoldable pub size_parts : Bytes → Option (Bytes × Bytes)
size_parts [] = none
size_parts (c ∷ cs) =
    let s = span_digits cs in
    if leb 49 c && leb c 57 && is_unit s.1 then some (c ∷ s.0, s.1) else none

-- The switch on the unit
unfoldable pub scale : Bytes → ℕ → ℕ
scale [] size = size
scale (c ∷ cs) size =
    if c == 77
    then size * 2 ^ 20 % 2 ^ 64
    else if c == 71
    then size * 2 ^ 30 % 2 ^ 64
    else if c == 84
    then size * 2 ^ 40 % 2 ^ 64
    else if c == 80
    then size * 2 ^ 50 % 2 ^ 64
    else size

unfoldable pub is_zero : Bytes → Bool
is_zero [] = false
is_zero (c ∷ []) = c == 48
is_zero (c ∷ b ∷ cs) = false

-- `ParseSizeString`
unfoldable pub parse_size_string : Bytes → Option ℕ
parse_size_string str =
    let size : Option ℕ = elim (size_parts str) [
      | none ↦ none
      | some parts ↦ elim (parse_uint 64 parts.0) [ none ↦ none | some n ↦ some (scale parts.1 n) ]
    ] in
    if is_zero str then some 0 else size

-- "/dev/nbd"
abbrev pub nbd_prefix : Bytes
nbd_prefix = 47 ∷ 100 ∷ 101 ∷ 118 ∷ 47 ∷ 110 ∷ 98 ∷ 100 ∷ []

-- `strings.HasPrefix`, and what follows the prefix
unfoldable pub after_prefix : Bytes → Bytes → Option Bytes
after_prefix [] s = some s
after_prefix (p ∷ ps) [] = none
after_prefix (p ∷ ps) (c ∷ cs) = let rest = after_prefix ps cs in if p == c then rest else none

-- `ParseNbdIndex`
unfoldable pub parse_nbd_index : Bytes → Option ℕ
parse_nbd_index dev = elim (after_prefix nbd_prefix dev) [ none ↦ none | some s ↦ parse_uint 32 s ]
