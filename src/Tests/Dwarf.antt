-- ===== src/Tests/Dwarf.antt =====
-- Range lists and abbreviation tables at concrete inputs.
use building_a_debugger.Common.{
  ℕ, undefined, true, ◌≡◌, refl, List, [], ◌∷◌, arith, ok, zeros, ◌++◌, All,
}
use building_a_debugger.Dwarf.Cursor.{uleb128, u8}
use building_a_debugger.Dwarf.Abbrev.{Sections, AbbrevTable, parse_abbrev_table, get_abbrev_table}
use building_a_debugger.Dwarf.Abbrev.Cache.{Agrees, get_abbrev_table-Agrees}
use building_a_debugger.Dwarf.Abbrev.Table.{Leb}
use building_a_debugger.Dwarf.Abbrev.Declarations.{
  Body, Decl, IsDecl, write_body, write_decls, table_of,
}
use building_a_debugger.Dwarf.Abbrev.Parse.{parse_abbrev_table_lem}
use building_a_debugger.Dwarf.Abbrev.Last.{parse_abbrev_table_last}
use building_a_debugger.Mapping.{map_file}
use building_a_debugger.Dwarf.Unit.{parse_compile_units}
use building_a_debugger.Dwarf.Unit.Headers.{
  Source, write_units, units_from, parse_compile_units_lem,
}
use building_a_debugger.Dwarf.Ranges.{RangeList, range_list_contains}
use building_a_debugger.Dwarf.Ranges.Lines.{Line, base, range, encode_all, covered}
use building_a_debugger.Dwarf.Ranges.Search.{range_list_contains-covered}

abbrev lines : List Line
lines = range 16 32 ∷ base 0x1000 ∷ range 0 8 ∷ []

abbrev sections : Sections
sections = record {
  file = encode_all lines;
  debug_info = record { begin = 0; size = 0 };
  debug_abbrev = record { begin = 0; size = 0 };
  debug_str = record { begin = 0; size = 0 };
  debug_ranges = record { begin = 0; size = 64 };
}

abbrev list : RangeList
list = record { span = record { begin = 0; size = 64 }; base_address = 0x400 }

range_list_contains-covered_example :
    range_list_contains sections list 0x1004 ≡ ok (covered 0x400 lines 0x1004)
range_list_contains-covered_example =
    range_list_contains-covered sections lines [] list 0x1004
      ((omega arith, omega arith, refl), (omega arith, ((omega arith, omega arith, refl), tt))) refl

-- A table of one declaration, and the entry that ends it, from offset 0.
abbrev abbrevs : Sections
abbrevs = record {
  file = 1 ∷ 0x11 ∷ 1 ∷ 0x03 ∷ 0x08 ∷ 0 ∷ 0 ∷ 0 ∷ 0 ∷ 0 ∷ 0 ∷ 0 ∷ [];
  debug_info = record { begin = 0; size = 0 };
  debug_abbrev = record { begin = 0; size = 12 };
  debug_str = record { begin = 0; size = 0 };
  debug_ranges = record { begin = 0; size = 0 };
}

abbrev table : AbbrevTable
table =
    (
      1,
      record {
        code = 1;
        tag = 0x11;
        has_children = true;
        attr_specs = record { attr = 0x03; form = 0x08 } ∷ [];
      },
    )
    ∷ []

parsed : parse_abbrev_table abbrevs 0 ≡ ok table
unfolding parse_abbrev_table uleb128 u8
parsed = refl

get_abbrev_table-Agrees_example :
    Agrees abbrevs (get_abbrev_table abbrevs 0 ((0, table) ∷ [])) (parse_abbrev_table abbrevs 0)
get_abbrev_table-Agrees_example = get_abbrev_table-Agrees abbrevs 0 ((0, table) ∷ []) (parsed, tt)

abbrev units : List Source
units =
    record { abbrev_offset = 0; entries = 1 ∷ 0 ∷ [] }
    ∷ record { abbrev_offset = 0x30; entries = 1 ∷ 2 ∷ 3 ∷ 0 ∷ [] }
    ∷ []

abbrev infos : Sections
infos = record {
  file = write_units units [];
  debug_info = record { begin = 0; size = 28 };
  debug_abbrev = record { begin = 0; size = 0 };
  debug_str = record { begin = 0; size = 0 };
  debug_ranges = record { begin = 0; size = 0 };
}

parse_compile_units_lem_example : parse_compile_units infos ≡ ok (units_from 0 units)
parse_compile_units_lem_example =
    parse_compile_units_lem infos units []
      ((omega arith, omega arith), ((omega arith, omega arith), tt)) refl refl

abbrev small : ℕ → Leb
small n = record { first = n; others = [] }

abbrev name_body : Body
name_body = record {
  tag = small 0x11;
  flag = 1;
  specs = record { attr = small 0x03; form = small 0x08 } ∷ [];
}

abbrev decls : List Decl
decls = (small 1, name_body) ∷ []

abbrev empty_body : Body
empty_body = record { tag = small 0; flag = 0; specs = [] }

abbrev with_abbrev : List ℕ → Sections
with_abbrev bytes = record abbrevs { file = bytes }

parse_abbrev_table_lem_example :
    parse_abbrev_table (with_abbrev (write_decls decls (write_body empty_body []))) 0
    ≡ ok (table_of [] decls)
parse_abbrev_table_lem_example =
    parse_abbrev_table_lem (with_abbrev (write_decls decls (write_body empty_body []))) decls
      empty_body [] 0
      (
        (
          (omega arith, (omega arith, tt)),
          refl,
          (
            (omega arith, (omega arith, tt)),
            (((omega arith, (omega arith, tt)), (omega arith, (omega arith, tt)), refl), tt),
          ),
        ),
        tt,
      )
      ((omega arith, (omega arith, tt)), tt) refl

-- The table at the end of a file: behind `before` bytes, and up to the last.
abbrev file_with : ℕ → List ℕ
file_with before = zeros before ++ write_decls decls []

abbrev at_end : ℕ → Sections
at_end before = record (with_abbrev (map_file (file_with before))) {
  debug_abbrev = record { begin = before; size = 8 };
}

decls-IsDecl : All IsDecl decls
decls-IsDecl = (
  (
    (omega arith, (omega arith, tt)),
    refl,
    (
      (omega arith, (omega arith, tt)),
      (((omega arith, (omega arith, tt)), (omega arith, (omega arith, tt)), refl), tt),
    ),
  ),
  tt,
)

parse_abbrev_table_last_example :
    (parse_abbrev_table (at_end 0) 0 ≡ ok (table_of [] decls))
    × (parse_abbrev_table (at_end 4086) 0 ≡ undefined)
parse_abbrev_table_last_example = (
  parse_abbrev_table_last (at_end 0) (file_with 0) decls 0 refl decls-IsDecl refl,
  parse_abbrev_table_last (at_end 4086) (file_with 4086) decls 0 refl decls-IsDecl refl,
)
