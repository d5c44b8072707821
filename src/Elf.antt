-- ===== src/Elf.antt =====
-- src/elf.cpp: an ELF file and its sections. The file is the list of bytes of its mapping, and a pointer
-- into it an offset; a read past the mapping is undefined. A pointer to a section header or a symbol is what
-- it points to, which nothing changes. The members of the headers stand at the offsets that elf(5)
-- gives; those that the source does not use are left out.
pub mod Symbols
pub mod Translate
pub mod Written
pub mod SymbolNames
pub mod SectionMap
use building_a_debugger.Common.{
  ℕ, zero, suc, ◌+◌, ◌%◌, ◌^◌, Bool, ◌&&◌, not, List, [], ◌∷◌, ltb, leb, ◌==◌, if◌then◌else◌,
  Option, none, some, length, take, drop, get_elem?, Run, ok, undefined, defined, ◌>>=◌,
}
use building_a_debugger.Common.Text.{codes, text_eq}
use building_a_debugger.Address.{add64, sub64, FileAddress, same_elf}
use building_a_debugger.Dwarf.Abbrev.{Span, Sections}
use building_a_debugger.Dwarf.Cursor.{find_zero, fixed_int}

-- Elf64_Ehdr, Elf64_Shdr and Elf64_Sym
pub record FileHeader : Type 0 where
  pub e_entry : ℕ
  pub e_shoff : ℕ
  pub e_shentsize : ℕ
  pub e_shnum : ℕ
  pub e_shstrndx : ℕ

pub record SectionHeader : Type 0 where
  pub sh_name : ℕ
  pub sh_addr : ℕ
  pub sh_offset : ℕ
  pub sh_size : ℕ
  pub sh_entsize : ℕ

pub record Symbol : Type 0 where
  pub st_name : ℕ
  pub st_info : ℕ
  pub st_value : ℕ
  pub st_size : ℕ

-- A key of `symbol_name_map_`: a view of characters, or of characters that have been freed.
pub data NameKey : Type 0 where
  live : List ℕ → NameKey
  dangling : NameKey

-- An entry of `symbol_addr_map_`; both addresses are in this file.
pub record AddressRange : Type 0 where
  pub low : ℕ
  pub high : ℕ
  pub symbol : Symbol

-- The members of Elf; `id` tells one object from another, as its address does.
pub record Elf : Type 0 where
  pub id : ℕ
  pub file : List ℕ
  pub header : FileHeader
  pub section_headers : List SectionHeader
  pub section_map : List (List ℕ × SectionHeader)
  pub symbol_table : List Symbol
  pub symbol_name_map : List (NameKey × Symbol)
  pub symbol_addr_map : List AddressRange
  pub load_bias : ℕ

-- `section_map_[name] = &section`
unfoldable pub assign :
    List ℕ → SectionHeader → List (List ℕ × SectionHeader) → List (List ℕ × SectionHeader)
assign name section [] = (name, section) ∷ []
assign name section ((other, old) ∷ m) =
    if text_eq other name then (other, section) ∷ m else (other, old) ∷ assign name section m

unfoldable pub find_section : List ℕ → List (List ℕ × SectionHeader) → Option SectionHeader
find_section name [] = none
find_section name ((other, section) ∷ m) =
    if text_eq other name then some section else find_section name m

module _ (file : List ℕ) where
  -- n bytes of a structure as an integer.
  unfoldable pub word : ℕ → ℕ → Run ℕ
  word n pos = fixed_int file n (record { pos = pos; end = length file }) >>= λ r. ok r.0

  unfoldable pub read_file_header : Run FileHeader
  unfolding word
  read_file_header = do
    entry ← word 8 24
    shoff ← word 8 40
    shentsize ← word 2 58
    shnum ← word 2 60
    shstrndx ← word 2 62
    ok (record {
      e_entry = entry;
      e_shoff = shoff;
      e_shentsize = shentsize;
      e_shnum = shnum;
      e_shstrndx = shstrndx;
    })

  unfoldable pub read_section_header : ℕ → Run SectionHeader
  unfolding word
  read_section_header pos = do
    name ← word 4 pos
    addr ← word 8 (pos + 16)
    offset ← word 8 (pos + 24)
    size ← word 8 (pos + 32)
    entsize ← word 8 (pos + 56)
    ok (record {
      sh_name = name;
      sh_addr = addr;
      sh_offset = offset;
      sh_size = size;
      sh_entsize = entsize;
    })

  unfoldable pub read_section_headers : ℕ → ℕ → Run (List SectionHeader)
  unfolding read_section_header
  read_section_headers zero pos = ok []
  read_section_headers (suc n) pos = do
    section ← read_section_header pos
    rest ← read_section_headers n (pos + 64)
    ok (section ∷ rest)

  -- The variable `n_headers` has the type of `e_shnum`, which is 16 bits wide.
  unfoldable pub section_count : FileHeader → Run ℕ
  unfolding read_section_header
  section_count h =
      if h.e_shnum == 0 && not (h.e_shentsize == 0)
      then (read_section_header h.e_shoff >>= λ first. ok (first.sh_size % 2 ^ 16))
      else ok h.e_shnum

  -- ParseSectionHeaders
  unfoldable pub parse_section_headers : FileHeader → Run (List SectionHeader)
  unfolding section_count read_section_headers
  parse_section_headers h = section_count h >>= λ n. read_section_headers n h.e_shoff

  -- The characters from a position on, up to the first zero.
  unfoldable pub string_at : ℕ → Run (List ℕ)
  unfolding find_zero
  string_at pos =
      let region = drop pos file in
      let n = find_zero region in if ltb n (length region) then ok (take n region) else undefined

  unfoldable pub get_section_name : FileHeader → List SectionHeader → ℕ → Run (List ℕ)
  unfolding string_at
  get_section_name h headers index =
      defined (get_elem? headers h.e_shstrndx) >>= λ section. string_at (section.sh_offset + index)

  -- The loop of BuildSectionMap over the headers from one on.
  unfoldable pub build_section_map :
      FileHeader
      → List SectionHeader
      → List SectionHeader
      → List (List ℕ × SectionHeader)
      → Run (List (List ℕ × SectionHeader))
  unfolding get_section_name assign
  build_section_map h headers [] m = ok m
  build_section_map h headers (section ∷ rest) m = do
    name ← get_section_name h headers section.sh_name
    build_section_map h headers rest (assign name section m)

unfoldable pub get_section : Elf → List ℕ → Option SectionHeader
unfolding find_section
get_section elf name = find_section name elf.section_map

-- The empty span stands at the end of the file.
unfoldable pub get_section_contents : Elf → List ℕ → Span
unfolding get_section
get_section_contents elf name = elim (get_section elf name) [
  | none ↦ record { begin = length elf.file; size = 0 }
  | some section ↦ record { begin = section.sh_offset; size = section.sh_size }
]

-- What Dwarf asks an ELF file for.
abbrev pub debug_sections : Elf → Sections
debug_sections elf = record {
  file = elf.file;
  debug_info = get_section_contents elf (codes ".debug_info");
  debug_abbrev = get_section_contents elf (codes ".debug_abbrev");
  debug_str = get_section_contents elf (codes ".debug_str");
  debug_ranges = get_section_contents elf (codes ".debug_ranges");
}

-- A section of one name, or else of another.
abbrev pub either_section : Elf → List ℕ → List ℕ → Option SectionHeader
either_section elf name other = elim (get_section elf name) [
  | none ↦ get_section elf other
  | some section ↦ some section
]

unfoldable pub get_string : Elf → ℕ → Run (List ℕ)
unfolding get_section string_at
get_string elf index = elim (either_section elf (codes ".strtab") (codes ".dynstr")) [
  | none ↦ ok []
  | some strtab ↦ string_at elf.file (strtab.sh_offset + index)
]

abbrev pub first_section : (SectionHeader → Bool) → List SectionHeader → Option SectionHeader
first_section test [] = none
first_section test (section ∷ rest) = if test section then some section else first_section test rest

abbrev pub holds_file_address : ℕ → SectionHeader → Bool
holds_file_address address section =
    leb section.sh_addr address && ltb address (add64 section.sh_addr section.sh_size)

abbrev pub holds_virtual_address : ℕ → ℕ → SectionHeader → Bool
holds_virtual_address bias address section =
    leb (add64 bias section.sh_addr) address
    && ltb address (add64 (add64 bias section.sh_addr) section.sh_size)

-- GetSectionContainingAddress of a file address and of a virtual one.
unfoldable pub section_containing_file_address : Elf → FileAddress → Option SectionHeader
section_containing_file_address elf address =
    if same_elf address.elf (some elf.id)
    then first_section (holds_file_address address.addr) elf.section_headers
    else none

unfoldable pub section_containing_virtual_address : Elf → ℕ → Option SectionHeader
section_containing_virtual_address elf address =
    first_section (holds_virtual_address elf.load_bias address) elf.section_headers

unfoldable pub get_section_start_address : Elf → List ℕ → Option FileAddress
unfolding get_section
get_section_start_address elf name = elim (get_section elf name) [
  | none ↦ none
  | some section ↦ some (record { elf = some elf.id; addr = section.sh_addr })
]

unfoldable pub notify_loaded : ℕ → Elf → Elf
notify_loaded address elf = record elf { load_bias = address }

-- CreateLoadedElf of src/target.cpp, from AT_ENTRY of the auxiliary vector.
unfoldable pub create_loaded_elf : ℕ → Elf → Elf
unfolding notify_loaded
create_loaded_elf at_entry elf = notify_loaded (sub64 at_entry elf.header.e_entry) elf
