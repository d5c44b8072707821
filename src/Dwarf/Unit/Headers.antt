-- ===== src/Dwarf/Unit/Headers.antt =====
-- ParseCompileUnits against the units that .debug_info is written from.
use building_a_debugger.Common.{
  ℕ, zero, suc, ◌+◌, ◌%◌, ◌^◌, ◌<◌, ◌≤◌, ◌≡◌, refl, sym, ap, ◌∙◌, true, false, List, [], ◌∷◌, ◌++◌,
  arith, ◌==◌, ==_ne, leb_gt, le→leb, length, length-append, drop, drop-append, drop-drop, All, ok,
  ◌>>=◌,
}
use mathlib.Core.List.{append-nil, append_assoc}
use building_a_debugger.Common.Bytes.{as_bytes}
use building_a_debugger.Dwarf.Cursor.{Cursor, advance, is_finished, u8, u16, u32}
use building_a_debugger.Dwarf.Cursor.Words.{fixed_int_word, behind_word}
use building_a_debugger.Dwarf.Abbrev.{span_end, Sections}
use building_a_debugger.Dwarf.Unit.{
  CompileUnit, parse_compile_unit, read_units, parse_compile_units,
}

-- A unit: where its abbreviation table stands, and the bytes of its entries.
pub record Source : Type 0 where
  pub abbrev_offset : ℕ
  pub entries : List ℕ

-- The header of DWARF32, version 4, with 8-byte addresses. The size counts what is behind it.
abbrev pub write_unit : Source → List ℕ → List ℕ
write_unit u rest =
    as_bytes 4 (7 + length u.entries)
    ++ (as_bytes 2 4 ++ (as_bytes 4 u.abbrev_offset ++ (as_bytes 1 8 ++ (u.entries ++ rest))))

abbrev pub write_units : List Source → List ℕ → List ℕ
write_units [] rest = rest
write_units (u ∷ us) rest = write_unit u (write_units us rest)

abbrev pub unit_size : Source → ℕ
unit_size u = 11 + length u.entries

abbrev pub units_size : List Source → ℕ
units_size [] = 0
units_size (u ∷ us) = unit_size u + units_size us

abbrev pub IsSource : Source → Type 0
IsSource u = (unit_size u < 2 ^ 32) × (u.abbrev_offset < 2 ^ 32)

-- The units one behind the other.
abbrev pub units_from : ℕ → List Source → List CompileUnit
units_from begin [] = []
units_from begin (u ∷ us) =
    record { span = record { begin = begin; size = unit_size u }; abbrev_offset = u.abbrev_offset }
    ∷ units_from (begin + unit_size u) us

module _ (s : Sections) where
  header_read :
      (size abbrev_offset : ℕ) (c c₁ c₂ c₃ c₄ : Cursor)
      → u32 s.file c ≡ ok (size, c₁)
      → u16 s.file c₁ ≡ ok (4, c₂)
      → u32 s.file c₂ ≡ ok (abbrev_offset, c₃)
      → u8 s.file c₃ ≡ ok (8, c₄)
      → size == 0xffff_ffff ≡ false
      → parse_compile_unit s c
        ≡ ok (record {
          span = record { begin = c.pos; size = (size + 4) % 2 ^ 32 };
          abbrev_offset = abbrev_offset;
        })
  unfolding parse_compile_unit
  header_read size abbrev_offset c c₁ c₂ c₃ c₄ e f g h k = rw (◌>>=◌, e, f, g, h, k) refl

  parsed_unit :
      (u : Source) (rest : List ℕ) (c : Cursor)
      → IsSource u
      → drop c.pos s.file ≡ write_unit u rest
      → parse_compile_unit s c
        ≡ ok (record {
          span = record { begin = c.pos; size = unit_size u };
          abbrev_offset = u.abbrev_offset;
        })
  unfolding u32 u16 u8
  parsed_unit u rest c (size, offset) e =
      let body = u.entries ++ rest in
      let e₁ = behind_word s.file 4 c.pos (7 + length u.entries) _ e in
      let e₂ = behind_word s.file 2 (c.pos + 4) 4 _ e₁ in
      let e₃ = behind_word s.file 4 (c.pos + 4 + 2) u.abbrev_offset _ e₂ in
      header_read (7 + length u.entries) u.abbrev_offset c (advance 4 c) (advance 2 (advance 4 c))
        (advance 4 (advance 2 (advance 4 c))) (advance 1 (advance 4 (advance 2 (advance 4 c))))
        (fixed_int_word s.file 4 c (7 + length u.entries) _ (omega arith) e)
        (fixed_int_word s.file 2 (advance 4 c) 4 _ (omega arith) e₁)
        (fixed_int_word s.file 4 (advance 2 (advance 4 c)) u.abbrev_offset _ (omega arith) e₂)
        (fixed_int_word s.file 1 (advance 4 (advance 2 (advance 4 c))) 8 _ (omega arith) e₃)
        (==_ne (7 + length u.entries) 0xffff_ffff (λ x. absurd (omega (arith, x))))
      ∙ ap
          (λ t.
            ok (record {
              span = record { begin = c.pos; size = t };
              abbrev_offset = u.abbrev_offset;
            }))
          total
    where
      total : (7 + length u.entries + 4) % 2 ^ 32 ≡ unit_size u
      total = omega arith

  length-write_unit :
      (u : Source) (rest : List ℕ) → length (write_unit u rest) ≡ unit_size u + length rest
  length-write_unit u rest = omega (arith, length-append u.entries rest)

  behind_unit :
      (u : Source) (rest : List ℕ) (p : ℕ)
      → drop p s.file ≡ write_unit u rest
      → drop (p + unit_size u) s.file ≡ rest
  behind_unit u rest p e =
      sym (drop-drop (unit_size u) p s.file)
      ∙ ap (drop (unit_size u)) e
      ∙ sym (drop-drop (length u.entries) 11 (write_unit u rest))
      ∙ drop-append u.entries rest

  more_units :
      (fuel : ℕ) (done : List CompileUnit) (unit : CompileUnit) (c : Cursor)
      → is_finished c ≡ false
      → parse_compile_unit s c ≡ ok unit
      → read_units s (suc fuel) done c
        ≡ read_units s fuel (done ++ unit ∷ []) (advance unit.span.size c)
  unfolding read_units
  more_units fuel done unit c e f = rw (e, ◌>>=◌, f) refl

  no_units :
      (fuel : ℕ) (done : List CompileUnit) (c : Cursor)
      → is_finished c ≡ true
      → read_units s (suc fuel) done c ≡ ok done
  unfolding read_units
  no_units fuel done c e = rw e refl

  read_units_lem :
      (us : List Source) (fuel : ℕ) (done : List CompileUnit) (rest : List ℕ) (c : Cursor)
      → All IsSource us
      → drop c.pos s.file ≡ write_units us rest
      → c.end ≡ c.pos + units_size us
      → length us < fuel
      → read_units s fuel done c ≡ ok (done ++ units_from c.pos us)
  read_units_lem us zero done rest c valid e f h = absurd (omega arith)
  read_units_lem [] (suc fuel) done rest c valid e f h =
      no_units fuel done c (le→leb c.end c.pos (omega arith)) ∙ ap ok (sym (append-nil done))
  read_units_lem (u ∷ us) (suc fuel) done rest c valid e f h =
      let unit : CompileUnit = record {
        span = record { begin = c.pos; size = unit_size u };
        abbrev_offset = u.abbrev_offset;
      } in
      more_units fuel done unit c (leb_gt c.end c.pos (omega arith))
        (parsed_unit u (write_units us rest) c valid.0 e)
      ∙ read_units_lem us fuel (done ++ unit ∷ []) rest (advance (unit_size u) c) valid.1
          (behind_unit u (write_units us rest) c.pos e) (omega arith) (omega arith)
      ∙ ap ok (append_assoc done (unit ∷ []) (units_from (c.pos + unit_size u) us))

  few_units : (us : List Source) → length us ≤ units_size us
  few_units [] = omega arith
  few_units (u ∷ us) = omega (arith, few_units us)

  -- ParseCompileUnits of a .debug_info section that is written from units of DWARF32, version 4,
  -- whose sizes and offsets fit their fields, returns those units: they tile the section from its
  -- begin to its end, each with its abbreviation offset.
  pub parse_compile_units_lem :
      (us : List Source) (rest : List ℕ)
      → All IsSource us
      → drop s.debug_info.begin s.file ≡ write_units us rest
      → s.debug_info.size ≡ units_size us
      → parse_compile_units s ≡ ok (units_from s.debug_info.begin us)
  unfolding parse_compile_units
  parse_compile_units_lem us rest valid e f =
      read_units_lem us (suc s.debug_info.size) [] rest
        (record { pos = s.debug_info.begin; end = span_end s.debug_info }) valid e (omega arith)
        (omega (arith, few_units us))
