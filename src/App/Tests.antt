-- ===== src/App/Tests.antt =====
-- Sizes and device names
use logblock.Prelude.{
  ◌*◌, ◌%◌, ◌^◌, ◌≡◌, refl, none, some, [], ◌∷◌, ◌++◌, if◌then◌else◌, ltb, arith,
}
use logblock.App.{
  is_digit, parse_digits, parse_uint, span_digits, is_unit, size_parts, scale, is_zero,
  parse_size_string,
}
use logblock.App.Numerals.{
  are_digits, value, numeral, gigas, unit_text, factor, parse_size_string_lem,
}

parse_size_string_example : parse_size_string (numeral (1 ∷ 2 ∷ []) ++ unit_text gigas) ≡ (
    if ltb (value (1 ∷ 2 ∷ [])) (2 ^ 64)
    then some (value (1 ∷ 2 ∷ []) * factor gigas % 2 ^ 64)
    else none)
unfolding are_digits
parse_size_string_example = parse_size_string_lem 1 (2 ∷ []) gigas (omega arith) refl

-- 2^24 petabytes are taken for 0.
large_size : parse_size_string (49 ∷ 54 ∷ 55 ∷ 55 ∷ 55 ∷ 50 ∷ 49 ∷ 54 ∷ 80 ∷ []) ≡ some 0
unfolding parse_size_string size_parts span_digits is_digit is_unit is_zero parse_uint parse_digits
    scale
large_size = refl

twelve_gigabytes : parse_size_string (49 ∷ 50 ∷ 71 ∷ []) ≡ some (12 * 2 ^ 30)
unfolding parse_size_string size_parts span_digits is_digit is_unit is_zero parse_uint parse_digits
    scale
twelve_gigabytes = refl
