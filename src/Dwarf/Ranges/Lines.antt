-- ===== src/Dwarf/Ranges/Lines.antt =====
-- RangeList::Contains against the lines that a range list is written from.
use building_a_debugger.Common.{
  ℕ, ◌^◌, ◌<◌, ◌≤◌, ◌≡◌, refl, Bool, true, false, ◌&&◌, List, [], ◌∷◌, ◌++◌, arith, ltb, leb, ◌==◌,
  if◌then◌else◌, length, length-append,
}
use building_a_debugger.Common.Bytes.{as_bytes}
use building_a_debugger.Address.{add64}
use building_a_debugger.Dwarf.Ranges.{base_address_flag}

-- A line sets the base address or gives a range relative to it.
pub data Line : Type 0 where
  base : ℕ → Line
  range : ℕ → ℕ → Line

abbrev pub encode : Line → List ℕ
encode (base b) = as_bytes 8 base_address_flag ++ as_bytes 8 b
encode (range low high) = as_bytes 8 low ++ as_bytes 8 high

abbrev pub encode_all : List Line → List ℕ
encode_all [] = as_bytes 8 0 ++ as_bytes 8 0
encode_all (l ∷ lines) = encode l ++ encode_all lines

-- A range starts below the flag, and is not the end of the list.
abbrev pub IsLine : Line → Type 0
IsLine (base b) = b < 2 ^ 64
IsLine (range low high) =
    (low < base_address_flag) × (high < 2 ^ 64) × ((low == 0 && high == 0) ≡ false)

-- Whether the address is in one of the ranges, each relative to the base set last before it.
abbrev pub covered : ℕ → List Line → ℕ → Bool
covered b [] a = false
covered b (base c ∷ lines) a = covered c lines a
covered b (range low high ∷ lines) a =
    if leb (add64 low b) a && ltb a (add64 high b) then true else covered b lines a

-- A list of lines has fewer lines than bytes.
pub lines_fit : (lines : List Line) → length lines ≤ length (encode_all lines)
lines_fit [] = omega arith
lines_fit (l ∷ lines) =
    omega (arith, lines_fit lines, length-append (encode l) (encode_all lines), line_fits l)
  where
    line_fits : (l : Line) → length (encode l) ≡ 16
    line_fits (base b) = refl
    line_fits (range low high) = refl
