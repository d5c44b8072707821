-- ===== src/Tests/Parse.antt =====
-- Numbers and vectors at concrete texts.
use building_a_debugger.Common.{◌≡◌, refl, [], ◌∷◌, arith, some, undefined, ok}
use building_a_debugger.Common.Text.{codes}
use building_a_debugger.Parse.{
  to_integral, skip_prefix, from_chars, scan_digits, digit, parse_vector,
}
use building_a_debugger.Parse.Numbers.{meaning, to_integral-meaning, print, to_integral-print}
use building_a_debugger.Parse.Vectors.{print_items, parse_vector-print}

to_integral-print_example :
    (to_integral 256 10 (print 10 200) ≡ ok (some 200))
    × (to_integral 256 16 (b'0' ∷ b'x' ∷ print 16 200) ≡ ok (some 200))
to_integral-print_example = to_integral-print 256 200 (omega arith)

to_integral-meaning_example :
    to_integral 256 16 (codes "0x1ff") ≡ meaning 256 16 (skip_prefix 16 (codes "0x1ff"))
to_integral-meaning_example = to_integral-meaning 256 16 (codes "0x1ff")

-- 511 does not fit a byte.
too_large : to_integral 256 16 (codes "0x1ff") ≡ undefined
unfolding to_integral from_chars scan_digits digit skip_prefix
too_large = refl

parse_vector-print_example :
    parse_vector (b'[' ∷ print_items (0xff ∷ 0xce ∷ [])) ≡ ok (0xff ∷ 0xce ∷ [])
parse_vector-print_example = parse_vector-print (0xff ∷ 0xce ∷ []) (omega arith)

written_as_usual : b'[' ∷ print_items (0xff ∷ 0xce ∷ []) ≡ codes "[0xff,0xce]"
written_as_usual = refl
