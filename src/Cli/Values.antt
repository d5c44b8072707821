-- ===== src/Cli/Values.antt =====
-- ParseRegisterValue of src/tools/sdb.cpp.
use building_a_debugger.Common.{
  ℕ, ◌^◌, List, ◌==◌, ◌||◌, if◌then◌else◌, Option, Run, ok, throws, undefined, ◌>>=◌,
  invalid_format,
}
use building_a_debugger.Common.Bytes.{as_bytes}
use building_a_debugger.Parse.{to_integral, to_float, parse_vector_sized, value}
use building_a_debugger.Registers.{Value, unsigned, floating, array}
use building_a_debugger.Registers.Table.{RegisterInfo, uint, double_float, long_double, vector}

-- What std::from_chars makes of a text as a double and as a long double: its object representation,
-- if it is set, and the rest of the text.
pub record FloatReader : Type 0 where
  pub read_double : List ℕ → Option (List ℕ) × List ℕ
  pub read_long_double : List ℕ → Option (List ℕ) × List ℕ

-- The bytes of an unsigned integer of some size in hexadecimal.
abbrev pub parse_unsigned : ℕ → List ℕ → Run Value
parse_unsigned size text = do
  parsed ← to_integral (256 ^ size) 16 text
  n ← value parsed
  ok (record { kind = unsigned; bytes = as_bytes size n })

abbrev pub parse_floating : (List ℕ → Option (List ℕ) × List ℕ) → List ℕ → Run Value
parse_floating read text = do
  parsed ← to_float read text
  bytes ← value parsed
  ok (record { kind = floating; bytes = bytes })

abbrev pub parse_array : ℕ → List ℕ → Run Value
parse_array size text = do
  bytes ← parse_vector_sized size text
  ok (record { kind = array; bytes = bytes })

-- The body of the try block; where it returns nothing the function goes on to its end.
unfoldable pub parse_by_format : FloatReader → RegisterInfo → List ℕ → Run Value
parse_by_format floats info text = elim info.format [
  | uint ↦
      if info.size == 1 || info.size == 2 || info.size == 4 || info.size == 8
      then parse_unsigned info.size text
      else throws invalid_format
  | double_float ↦ parse_floating floats.read_double text
  | long_double ↦ parse_floating floats.read_long_double text
  | vector ↦
      if info.size == 8 || info.size == 16
      then parse_array info.size text
      else throws invalid_format
]

-- Every exception of the try block ends in the one that is thrown last.
abbrev pub or_invalid : Run Value → Run Value
or_invalid (ok v) = ok v
or_invalid (throws e) = throws invalid_format
or_invalid undefined = undefined

unfoldable pub parse_register_value : FloatReader → RegisterInfo → List ℕ → Run Value
unfolding parse_by_format
parse_register_value floats info text = or_invalid (parse_by_format floats info text)
