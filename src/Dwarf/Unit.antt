-- ===== src/Dwarf/Unit.antt =====
-- Compile units: ParseCompileUnit and ParseCompileUnits of src/dwarf.cpp.
pub mod Headers
use building_a_debugger.Common.{
  ℕ, zero, suc, ◌+◌, ◌%◌, ◌^◌, not, List, [], ◌∷◌, ◌++◌, ◌==◌, if◌then◌else◌, Run, ok, throws,
  undefined, ◌>>=◌, only_dwarf32, only_version_4, invalid_address_size,
}
use building_a_debugger.Dwarf.Cursor.{Cursor, advance, is_finished, u8, u16, u32}
use building_a_debugger.Dwarf.Abbrev.{Span, span_end, Sections}

pub record CompileUnit : Type 0 where
  pub span : Span
  pub abbrev_offset : ℕ

module _ (s : Sections) where
  -- The size is a `uint32_t`, and the 4 bytes of its own field are added to it.
  unfoldable pub parse_compile_unit : Cursor → Run CompileUnit
  parse_compile_unit c = do
    (size, c₁) ← u32 s.file c
    (version, c₂) ← u16 s.file c₁
    (abbrev_offset, c₃) ← u32 s.file c₂
    (addr_size, c₄) ← u8 s.file c₃
    if size == 0xffff_ffff
        then throws only_dwarf32
        else if not (version == 4)
        then throws only_version_4
        else if not (addr_size == 8)
        then throws invalid_address_size
        else ok (record {
          span = record { begin = c.pos; size = (size + 4) % 2 ^ 32 };
          abbrev_offset = abbrev_offset;
        })

  -- The while loop. A round that moves the cursor by 0 would repeat itself for ever.
  unfoldable pub read_units : ℕ → List CompileUnit → Cursor → Run (List CompileUnit)
  unfolding parse_compile_unit
  read_units zero units c = undefined
  read_units (suc fuel) units c =
      let more = parse_compile_unit c >>= λ unit.
      read_units fuel (units ++ unit ∷ []) (advance unit.span.size c) in
      if is_finished c then ok units else more

  unfoldable pub parse_compile_units : Run (List CompileUnit)
  unfolding read_units
  parse_compile_units =
      read_units (suc s.debug_info.size) []
        (record { pos = s.debug_info.begin; end = span_end s.debug_info })
