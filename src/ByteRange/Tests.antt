-- ===== src/ByteRange/Tests.antt =====
-- Runs of the parser, and the theorems at concrete headers.
use gas.Prelude.{◌≡◌, refl, [], ◌∷◌, arith}
use gas.ByteRange.{
  Bytes, ok, equal_fold, is_blank, by_first, parse_from, parse_digits, digits_less, clamped,
  first_last_range, parse_byte_range,
}
use gas.ByteRange.Spec.{Within, IsUnsatisfiable, parse_byte_range-Within}
use gas.ByteRange.Headers.{range_header, parse_byte_range-selected}

-- "2" and "40"
abbrev two : Bytes
two = 50 ∷ []

abbrev forty : Bytes
forty = 52 ∷ 48 ∷ []

-- " BYTES=2-40", and "byteſ=2-40" with the letter U+017F
abbrev shouted : Bytes
shouted = 32 ∷ 66 ∷ 89 ∷ 84 ∷ 69 ∷ 83 ∷ 61 ∷ 50 ∷ 45 ∷ 52 ∷ 48 ∷ []

abbrev long_s : Bytes
long_s = 98 ∷ 121 ∷ 116 ∷ 101 ∷ 197 ∷ 191 ∷ 61 ∷ 50 ∷ 45 ∷ 52 ∷ 48 ∷ []

shouted_selects : parse_byte_range shouted 10 ≡ ok 2 8
unfolding parse_byte_range equal_fold is_blank by_first first_last_range parse_digits parse_from
    digits_less clamped
shouted_selects = refl

long_s_selects : parse_byte_range long_s 10 ≡ ok 2 8
unfolding parse_byte_range equal_fold is_blank by_first first_last_range parse_digits parse_from
    digits_less clamped
long_s_selects = refl

parse_byte_range-Within_example :
    Within (IsUnsatisfiable shouted 10) 10 (parse_byte_range shouted 10)
parse_byte_range-Within_example = parse_byte_range-Within shouted 10 (omega arith)

parse_byte_range-selected_example : parse_byte_range (range_header two forty) 10 ≡ ok 2 8
parse_byte_range-selected_example = parse_byte_range-selected two forty 10 refl refl (omega arith)
