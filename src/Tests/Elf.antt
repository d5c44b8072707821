-- ===== src/Tests/Elf.antt =====
-- An ELF file with four sections and three symbols.
use mathlib.Core.List.{Perm}
use mathlib.Core.List.Perm
use building_a_debugger.Common.{
  select, All, ℕ, ◌^◌, ◌≡◌, refl, if◌then◌else◌, List, [], ◌∷◌, ◌++◌, none, some, arith, Run, ok,
  throws, undefined, take, length, ◌%◌, zeros, false,
}
use building_a_debugger.Common.Text.{codes, text_eq}
use building_a_debugger.Common.Bytes.{as_bytes}
use building_a_debugger.Address.{FileAddress, same_elf}
use building_a_debugger.Dwarf.Cursor.{fixed_int, find_zero}
use building_a_debugger.Mapping.{map_file}
use building_a_debugger.Elf.{
  FileHeader, Symbol, Elf, get_section, find_section, parse_section_headers, get_string,
  section_containing_file_address, section_containing_virtual_address,
}
use building_a_debugger.Elf.Symbols.{
  NameLibrary, open_elf, without_symbols, get_symbol_containing_address, get_symbols_by_name,
}
use building_a_debugger.Elf.Symbols.Nearest.{nearest_symbol, get_symbol_containing_address-nearest}
use building_a_debugger.Elf.SymbolNames.{NameLaws, IsPlain, name_of, get_symbols_by_name-named}
use building_a_debugger.Elf.SectionMap.{last_named, get_section-last}
use building_a_debugger.Elf.Written.{
  FullHeader, write_headers, sections_of, parse_section_headers-write, parse_section_headers-many,
}
use building_a_debugger.Elf.Translate.{
  to_virtual_address, to_file_address, Loaded, to_file_address-to_virtual_address,
  to_virtual_address-to_file_address,
}

abbrev section : ℕ → ℕ → ℕ → ℕ → ℕ → FullHeader
section name addr offset size entsize = record {
  section = record {
    sh_name = name;
    sh_addr = addr;
    sh_offset = offset;
    sh_size = size;
    sh_entsize = entsize;
  };
  sh_type = 1;
  sh_flags = 0;
  sh_link = 0;
  sh_info = 0;
  sh_addralign = 1;
}

abbrev sections : List FullHeader
sections =
    section 0 0 0 0 0
    ∷ section 1 0 320 30 0
    ∷ section 9 0 350 72 24
    ∷ section 24 0x1000 0 0x100 0
    ∷ []

abbrev strings : List ℕ
strings =
    0
    ∷ (codes ".strtab"
        ++ (0
            ∷ (codes ".symtab"
                ++ (0 ∷ (codes "main" ++ (0 ∷ (codes "f" ++ (0 ∷ (codes ".text" ++ (0 ∷ []))))))))))

abbrev symbol : ℕ → ℕ → ℕ → List ℕ
symbol name value size =
    as_bytes 4 name ++ (2 ∷ 0 ∷ as_bytes 2 3 ++ (as_bytes 8 value ++ as_bytes 8 size))

abbrev symbols : List ℕ
symbols = symbol 0 0 0 ++ (symbol 17 0x1000 16 ++ symbol 22 0x1010 8)

abbrev file : List ℕ
file =
    zeros 24
    ++ (as_bytes 8 0x1000
        ++ (zeros 8
            ++ (as_bytes 8 64
                ++ (zeros 10
                    ++ (as_bytes 2 64
                        ++ (as_bytes 2 4
                            ++ (as_bytes 2 1 ++ write_headers sections (strings ++ symbols))))))))

-- A library that demangles no name, and lists what it finds in the order of the insertions.
abbrev no_demangling : NameLibrary
no_demangling = record {
  demangle = λ name. none;
  reads_freed = λ name m. false;
  arrange = λ symbols. symbols;
}

abbrev opened : Run Elf → Elf
opened (ok elf) = elf
opened (throws e) =
    without_symbols 0 []
      (record { e_entry = 0; e_shoff = 0; e_shentsize = 0; e_shnum = 0; e_shstrndx = 0 }) [] []
opened undefined =
    without_symbols 0 []
      (record { e_entry = 0; e_shoff = 0; e_shentsize = 0; e_shnum = 0; e_shstrndx = 0 }) [] []

elf : Elf
unfolding open_elf map_file
elf = opened (open_elf no_demangling 7 file)

elf-opened : open_elf no_demangling 7 file ≡ ok elf
unfolding elf fixed_int find_zero text_eq get_section get_string map_file
elf-opened = refl

abbrev inside_main : FileAddress
inside_main = record { elf = some 7; addr = 0x1004 }

get_symbol_containing_address-nearest_example :
    get_symbol_containing_address elf inside_main
    ≡ (if same_elf (some 7) (some 7) then nearest_symbol 0x1004 elf.symbol_table else none)
get_symbol_containing_address-nearest_example =
    get_symbol_containing_address-nearest no_demangling 7 file elf inside_main elf-opened

main_found :
    nearest_symbol 0x1004 elf.symbol_table
    ≡ some (record { st_name = 17; st_info = 2; st_value = 0x1000; st_size = 16 })
unfolding elf fixed_int find_zero text_eq get_section get_string
main_found = refl

names : NameLaws no_demangling
names = record { reads_freed-IsLive = λ text m h. refl; arrange-Perm = Perm.refl }

plain : (e : Elf) (symbols : List Symbol) → All (IsPlain no_demangling e) symbols
plain e [] = tt
plain e (symbol ∷ rest) = (refl, plain e rest)

get_symbols_by_name-named_example :
    (found : List Symbol) × (get_symbols_by_name no_demangling elf (codes "f") ≡ ok found)
    × Perm found (select (λ symbol. text_eq (name_of elf symbol) (codes "f")) elf.symbol_table)
get_symbols_by_name-named_example =
    get_symbols_by_name-named no_demangling names 7 file elf (codes "f") elf-opened
      (plain elf elf.symbol_table)

get_section-last_example :
    get_section elf (codes ".text")
    ≡ last_named elf.file elf.header elf.section_headers (codes ".text") none elf.section_headers
get_section-last_example = get_section-last no_demangling 7 file elf (codes ".text") elf-opened

text_found : get_section elf (codes ".text") ≡ some (section 24 0x1000 0 0x100 0).section
unfolding elf fixed_int find_zero text_eq get_section get_string find_section
text_found = refl

abbrev header : ℕ → FileHeader
header number = record {
  e_entry = 0;
  e_shoff = 0;
  e_shentsize = 64;
  e_shnum = number;
  e_shstrndx = 0;
}

parse_section_headers-write_example :
    parse_section_headers (write_headers sections []) (header 4) ≡ ok (sections_of sections)
parse_section_headers-write_example =
    parse_section_headers-write (write_headers sections []) (header 4) sections [] (omega arith)
      refl (omega arith) refl

abbrev counted : List FullHeader
counted = section 0 0 0 2 0 ∷ section 1 0 320 30 0 ∷ []

parse_section_headers-many_example :
    parse_section_headers (write_headers counted []) (header 0)
    ≡ ok (sections_of (take (length counted % 2 ^ 16) counted))
parse_section_headers-many_example =
    parse_section_headers-many (write_headers counted []) (header 0) (section 0 0 0 2 0)
      (section 1 0 320 30 0 ∷ []) [] (omega arith) refl refl (λ e. absurd (omega arith)) refl

-- A file that is loaded with a bias, and the only object that addresses refer to.
abbrev loaded : Elf
loaded = record (without_symbols 7 [] (header 4) (sections_of sections) []) {
  load_bias = 0x5555_0000_0000;
}

loaded-Loaded : Loaded (λ id. loaded) loaded
loaded-Loaded = record { known = refl; bias-lt = omega arith; fits = omega arith }

to_file_address-to_virtual_address_example :
    (v : ℕ) × (to_virtual_address (λ id. loaded) (record { elf = some 7; addr = 0x1004 }) ≡ ok v)
    × (section_containing_virtual_address loaded v ≡ some (section 24 0x1000 0 0x100 0).section)
    × (to_file_address loaded v ≡ record { elf = some 7; addr = 0x1004 })
to_file_address-to_virtual_address_example =
    to_file_address-to_virtual_address (λ id. loaded) loaded loaded-Loaded 0x1004
      (section 24 0x1000 0 0x100 0).section (omega arith) in_text
  where
    in_text :
        section_containing_file_address loaded (record { elf = some 7; addr = 0x1004 })
        ≡ some (section 24 0x1000 0 0x100 0).section
    in_text = unfold section_containing_file_address in refl

to_virtual_address-to_file_address_example :
    to_virtual_address (λ id. loaded) (to_file_address loaded 0x5555_0000_1004)
    ≡ ok 0x5555_0000_1004
to_virtual_address-to_file_address_example =
    to_virtual_address-to_file_address (λ id. loaded) loaded loaded-Loaded 0x5555_0000_1004
      (section 24 0x1000 0 0x100 0).section (omega arith) in_text
  where
    in_text :
        section_containing_virtual_address loaded 0x5555_0000_1004
        ≡ some (section 24 0x1000 0 0x100 0).section
    in_text = unfold section_containing_virtual_address in refl
