-- ===== src/Dwarf/Entry.antt =====
-- Debugging information entries and their attributes: ParseDie, CompileUnit::GetRoot, sdb::Attr
-- and the lookups of sdb::Die in src/dwarf.cpp.
use building_a_debugger.Common.{
  ℕ, zero, suc, ◌+◌, Bool, true, false, ◌&&◌, List, [], ◌∷◌, ◌++◌, ltb, leb, ◌==◌, if◌then◌else◌,
  Option, none, some, Run, ok, throws, undefined, ◌>>=◌, defined, get_elem?, invalid_address_type,
  invalid_offset_type, invalid_block_type, invalid_integer_type, invalid_string_type,
  invalid_reference_type, attribute_not_found,
}
use building_a_debugger.Dwarf.Cursor.{Cursor, u8, u16, u32, u64, uleb128, string, skip_form}
use building_a_debugger.Dwarf.Abbrev.{
  Span, span_end, Sections, AttrSpec, Abbrev, at, parse_abbrev_table,
}
use building_a_debugger.Dwarf.Unit.{CompileUnit}
use building_a_debugger.Dwarf.Constants.{
  dw_form_addr, dw_form_block, dw_form_block1, dw_form_block2, dw_form_block4, dw_form_data1,
  dw_form_data2, dw_form_data4, dw_form_data8, dw_form_ref1, dw_form_ref2, dw_form_ref4,
  dw_form_ref8, dw_form_ref_addr, dw_form_ref_udata, dw_form_sec_offset, dw_form_string,
  dw_form_strp, dw_form_udata, dw_at_name, dw_at_specification, dw_at_abstract_origin,
}

pub record Entry : Type 0 where
  pub pos : ℕ
  pub unit : CompileUnit
  pub abbrev_entry : Abbrev
  pub attr_locations : List ℕ
  pub next : ℕ

-- A null DIE knows where the next one starts, and has no abbreviation.
pub data Die : Type 0 where
  null_die : ℕ → Die
  die : Entry → Die

pub record Attr : Type 0 where
  pub unit : CompileUnit
  pub name : ℕ
  pub form : ℕ
  pub location : ℕ

-- The fields of a DIE are used only where it is not null: its pointers would be null pointers.
abbrev pub entry : Die → Run Entry
entry (null_die next) = undefined
entry (die e) = ok e

-- Die::GetNext
abbrev pub get_next : Die → ℕ
get_next (null_die next) = next
get_next (die e) = e.next

has_attr : ℕ → List AttrSpec → Bool
has_attr attribute [] = false
has_attr attribute (spec ∷ specs) =
    if spec.attr == attribute then true else has_attr attribute specs

-- Die::Contains
unfoldable pub contains : ℕ → Entry → Bool
unfolding has_attr
contains attribute e = has_attr attribute e.abbrev_entry.attr_specs

-- The loop of Die::operator[], from index i on.
unfoldable pub find_attr : CompileUnit → List ℕ → ℕ → ℕ → List AttrSpec → Run Attr
find_attr unit locations attribute i [] = throws attribute_not_found
find_attr unit locations attribute i (spec ∷ specs) =
    let found = defined (get_elem? locations i) >>= λ location.
    ok (record { unit = unit; name = spec.attr; form = spec.form; location = location }) in
    if spec.attr == attribute then found else find_attr unit locations attribute (i + 1) specs

unfoldable pub attr_at : ℕ → Entry → Run Attr
unfolding find_attr
attr_at attribute e = find_attr e.unit e.attr_locations attribute 0 e.abbrev_entry.attr_specs

-- The cursor of every reader of an attribute.
abbrev pub attr_cursor : Attr → Cursor
attr_cursor a = record { pos = a.location; end = span_end a.unit.span }

-- `find_if` over the compile units, for the one whose data holds a position.
unit_holding : ℕ → List CompileUnit → Option CompileUnit
unit_holding p [] = none
unit_holding p (unit ∷ units) =
    if leb unit.span.begin p && ltb p (span_end unit.span) then some unit else unit_holding p units

module _ (s : Sections) where
  unfoldable pub locate_attrs : List AttrSpec → List ℕ → Cursor → Run (List ℕ × Cursor)
  locate_attrs [] locations c = ok (locations, c)
  locate_attrs (spec ∷ specs) locations c =
      skip_form s.file spec.form c >>= locate_attrs specs (locations ++ c.pos ∷ [])

  unfoldable pub parse_die : CompileUnit → Cursor → Run Die
  unfolding locate_attrs
  parse_die unit c = do
    (code, c₁) ← uleb128 s.file c
    let rest = do
      table ← parse_abbrev_table s unit.abbrev_offset
      abbrev_entry ← at code table
      (locations, c₂) ← locate_attrs abbrev_entry.attr_specs [] c₁
      ok (
          die (record {
            pos = c.pos;
            unit = unit;
            abbrev_entry = abbrev_entry;
            attr_locations = locations;
            next = c₂.pos;
          }))
    if code == 0 then ok (null_die c₁.pos) else rest

  -- CompileUnit::GetRoot: the header takes 11 bytes.
  unfoldable pub get_root : CompileUnit → Run Die
  unfolding parse_die
  get_root unit = parse_die unit (record { pos = unit.span.begin + 11; end = span_end unit.span })

  abbrev pub read_value : (Cursor → Run (ℕ × Cursor)) → Attr → Run ℕ
  read_value read a = read (attr_cursor a) >>= λ r. ok r.0

  -- The address belongs to the ELF file that is read.
  unfoldable pub as_address : Attr → Run ℕ
  as_address a =
      if a.form == dw_form_addr then read_value (u64 s.file) a else throws invalid_address_type

  unfoldable pub as_section_offset : Attr → Run ℕ
  as_section_offset a =
      if a.form == dw_form_sec_offset then read_value (u32 s.file) a else throws invalid_offset_type

  -- The size of a block, read in the width that its form names.
  block_size : Attr → Run (ℕ × Cursor)
  block_size a =
      if a.form == dw_form_block1
      then u8 s.file (attr_cursor a)
      else if a.form == dw_form_block2
      then u16 s.file (attr_cursor a)
      else if a.form == dw_form_block4
      then u32 s.file (attr_cursor a)
      else if a.form == dw_form_block
      then uleb128 s.file (attr_cursor a)
      else throws invalid_block_type

  unfoldable pub as_block : Attr → Run Span
  unfolding block_size
  as_block a = block_size a >>= λ r. ok (record { begin = r.1.pos; size = r.0 })

  unfoldable pub as_int : Attr → Run ℕ
  as_int a =
      if a.form == dw_form_data1
      then read_value (u8 s.file) a
      else if a.form == dw_form_data2
      then read_value (u16 s.file) a
      else if a.form == dw_form_data4
      then read_value (u32 s.file) a
      else if a.form == dw_form_data8
      then read_value (u64 s.file) a
      else if a.form == dw_form_udata
      then read_value (uleb128 s.file) a
      else throws invalid_integer_type

  unfoldable pub as_string : Attr → Run (List ℕ)
  as_string a =
      if a.form == dw_form_string
      then (string s.file (attr_cursor a) >>= λ r. ok r.0)
      else if a.form == dw_form_strp
      then (do
        (offset, c) ← u32 s.file (attr_cursor a)
        (text, c') ←
            string s.file (record { pos = s.debug_str.begin + offset; end = span_end s.debug_str })
        ok text)
      else throws invalid_string_type

  -- The DIE at an offset from the start of the attribute's own compile unit.
  local_reference : CompileUnit → ℕ → Run Die
  unfolding parse_die
  local_reference unit offset =
      parse_die unit (record { pos = unit.span.begin + offset; end = span_end unit.span })

  -- The DIE at an offset into .debug_info; with no unit there, the end iterator is dereferenced.
  global_reference : List CompileUnit → ℕ → Run Die
  unfolding parse_die unit_holding
  global_reference units offset =
      let p = s.debug_info.begin + offset in
      defined (unit_holding p units) >>= λ unit.
      parse_die unit (record { pos = p; end = span_end unit.span })

  unfoldable pub as_reference : List CompileUnit → Attr → Run Die
  unfolding local_reference global_reference
  as_reference units a =
      let here =
        λ (read : Cursor → Run (ℕ × Cursor)). read_value read a >>= local_reference a.unit in
      if a.form == dw_form_ref1
      then here (u8 s.file)
      else if a.form == dw_form_ref2
      then here (u16 s.file)
      else if a.form == dw_form_ref4
      then here (u32 s.file)
      else if a.form == dw_form_ref8
      then here (u64 s.file)
      else if a.form == dw_form_ref_udata
      then here (uleb128 s.file)
      else if a.form == dw_form_ref_addr
      then (read_value (u32 s.file) a >>= global_reference units)
      else throws invalid_reference_type

  -- Die::Name follows specifications and abstract origins. The fuel bounds the chain, which the
  -- code follows without end if it is a cycle.
  unfoldable pub die_name : ℕ → List CompileUnit → Die → Run (Option (List ℕ))
  die_name zero units d = undefined
  die_name (suc fuel) units d = do
    e ← entry d
    let follow =
        λ (attribute : ℕ). (attr_at attribute e >>= as_reference units) >>= die_name fuel units
    if contains dw_at_name e
        then (attr_at dw_at_name e >>= as_string) >>= (λ text. ok (some text))
        else if contains dw_at_specification e
        then follow dw_at_specification
        else if contains dw_at_abstract_origin e
        then follow dw_at_abstract_origin
        else ok none
