-- ===== src/Elf/Symbols.antt =====
-- The symbols of an ELF file: the tables of src/elf.cpp and the searches in them, and the
-- constructor.
pub mod Ordered
pub mod Nearest
use building_a_debugger.Common.{
  ℕ, zero, suc, ◌+◌, ◌-◌, ◌*◌, ◌/◌, bit_and, Bool, true, false, ◌&&◌, ◌||◌, not, List, [], ◌∷◌,
  ◌++◌, ltb, ◌==◌, if◌then◌else◌, Option, none, some, length, take, drop, get_elem?, Run, ok,
  undefined, ◌>>=◌, zeros,
}
use building_a_debugger.Common.Text.{codes, text_eq}
use building_a_debugger.Address.{add64, FileAddress, same_elf}
use building_a_debugger.Mapping.{map_file}
use building_a_debugger.Elf.{
  FileHeader, SectionHeader, Symbol, NameKey, live, dangling, AddressRange, Elf, word,
  read_file_header, parse_section_headers, build_section_map, get_section, get_string,
  either_section,
}

abbrev pub stt_tls : ℕ
stt_tls = 6

-- ELF64_ST_TYPE
abbrev pub st_type : ℕ → ℕ
st_type info = bit_and info 0xf

unfoldable pub read_symbol : List ℕ → ℕ → Run Symbol
unfolding word
read_symbol file pos = do
  name ← word file 4 pos
  info ← word file 1 (pos + 4)
  value ← word file 8 (pos + 8)
  size ← word file 8 (pos + 16)
  ok (record { st_name = name; st_info = info; st_value = value; st_size = size })

unfoldable pub read_symbols : List ℕ → ℕ → ℕ → Run (List Symbol)
unfolding read_symbol
read_symbols file zero pos = ok []
read_symbols file (suc n) pos = do
  symbol ← read_symbol file pos
  rest ← read_symbols file n (pos + 24)
  ok (symbol ∷ rest)

-- The copy of a table into memory for `count` symbols, which `resize` has filled with zeros. A table
-- that does not fit overruns that memory.
unfoldable pub copy_symbols : List ℕ → ℕ → Run (List Symbol)
unfolding read_symbols
copy_symbols table count =
    if ltb (24 * count) (length table)
    then undefined
    else read_symbols (table ++ zeros (24 * count - length table)) count 0

-- ParseSymbolTable; a division by an entry size of 0 is undefined.
unfoldable pub parse_symbol_table : Elf → Run (List Symbol)
unfolding get_section copy_symbols
parse_symbol_table elf = elim (either_section elf (codes ".symtab") (codes ".dynsym")) [
  | none ↦ ok []
  | some symtab ↦
      let table = take symtab.sh_size (drop symtab.sh_offset elf.file) in
      if symtab.sh_entsize == 0 || not (length table == symtab.sh_size)
      then undefined
      else copy_symbols table (symtab.sh_size / symtab.sh_entsize)
]

-- map::insert, which keeps an entry with the same key. RangeComparator compares the low ends.
unfoldable pub insert_range : AddressRange → List AddressRange → List AddressRange
insert_range r [] = r ∷ []
insert_range r (s ∷ m) =
    if ltb r.low s.low then r ∷ s ∷ m else if ltb s.low r.low then s ∷ insert_range r m else s ∷ m

abbrev pub has_address : Symbol → Bool
has_address symbol =
    not (symbol.st_value == 0)
    && (not (symbol.st_name == 0) && not (st_type symbol.st_info == stt_tls))

abbrev pub range_of : Symbol → AddressRange
range_of symbol = record {
  low = symbol.st_value;
  high = add64 symbol.st_value symbol.st_size;
  symbol = symbol;
}

abbrev pub insert_symbol : Symbol → List AddressRange → List AddressRange
insert_symbol symbol m = if has_address symbol then insert_range (range_of symbol) m else m

-- The members as they are before the symbols are read.
abbrev pub without_symbols :
    ℕ → List ℕ → FileHeader → List SectionHeader → List (List ℕ × SectionHeader) → Elf
without_symbols id file header headers sections = record {
  id = id;
  file = file;
  header = header;
  section_headers = headers;
  section_map = sections;
  symbol_table = [];
  symbol_name_map = [];
  symbol_addr_map = [];
  load_bias = 0;
}

-- What stands for the library that the name map rests on: abi::__cxa_demangle; whether a search of an
-- unordered_multimap for a key, or its insertion, compares it with a key whose characters have been
-- freed, which hashes and buckets decide; and the order in which equal_range lists what it finds.
pub record NameLibrary : Type 0 where
  pub demangle : List ℕ → Option (List ℕ)
  pub reads_freed : List ℕ → List (NameKey × Symbol) → Bool
  pub arrange : List Symbol → List Symbol

module _ (library : NameLibrary) where
  -- symbol_name_map_.insert, by the text of the key and what becomes of it.
  unfoldable pub insert_name :
      List ℕ → NameKey → Symbol → List (NameKey × Symbol) → Run (List (NameKey × Symbol))
  insert_name text key symbol m =
      if library.reads_freed text m then undefined else ok (m ++ (key, symbol) ∷ [])

  -- The entries of the name map for one symbol. The demangled name is freed as soon as its entry is
  -- made, and the key of the entry is a view of it.
  unfoldable pub insert_names :
      List ℕ → Symbol → List (NameKey × Symbol) → Run (List (NameKey × Symbol))
  unfolding insert_name
  insert_names name symbol m = elim (library.demangle name) [
    | none ↦ insert_name name (live name) symbol m
    | some demangled ↦
        insert_name demangled dangling symbol m >>= insert_name name (live name) symbol
  ]

  -- BuildSymbolMaps: the two maps.
  unfoldable pub build_symbol_maps :
      Elf
      → List Symbol
      → List (NameKey × Symbol)
      → List AddressRange
      → Run (List (NameKey × Symbol) × List AddressRange)
  unfolding get_string insert_names insert_range
  build_symbol_maps elf [] names ranges = ok (names, ranges)
  build_symbol_maps elf (symbol ∷ rest) names ranges = do
    name ← get_string elf symbol.st_name
    names' ← insert_names name symbol names
    build_symbol_maps elf rest names' (insert_symbol symbol ranges)

  -- The two calls of the constructor that read the symbols, into an object without any.
  unfoldable pub load_symbols : Elf → Run Elf
  unfolding parse_symbol_table build_symbol_maps
  load_symbols elf = do
    symbols ← parse_symbol_table elf
    (names, ranges) ← build_symbol_maps elf symbols [] []
    ok (record elf { symbol_table = symbols; symbol_name_map = names; symbol_addr_map = ranges })

  -- The constructor, over the bytes of the file that it maps.
  unfoldable pub open_elf : ℕ → List ℕ → Run Elf
  unfolding read_file_header parse_section_headers build_section_map load_symbols map_file
  open_elf id contents = do
    let file = map_file contents
    header ← read_file_header file
    headers ← parse_section_headers file header
    sections ← build_section_map file header headers headers []
    load_symbols (without_symbols id file header headers sections)

-- The symbols of the entries with a name.
unfoldable pub matching_names : List ℕ → List (NameKey × Symbol) → List Symbol
unfolding text_eq
matching_names name [] = []
matching_names name ((dangling, symbol) ∷ m) = matching_names name m
matching_names name ((live other, symbol) ∷ m) =
    let rest = matching_names name m in if text_eq other name then symbol ∷ rest else rest

-- A comparison with a key that dangles is undefined.
unfoldable pub get_symbols_by_name : NameLibrary → Elf → List ℕ → Run (List Symbol)
unfolding matching_names
get_symbols_by_name library elf name =
    if library.reads_freed name elf.symbol_name_map
    then undefined
    else ok (library.arrange (matching_names name elf.symbol_name_map))

-- map::lower_bound: how many entries come before the first whose low end is not below an address.
unfoldable pub lower_bound : ℕ → List AddressRange → ℕ
lower_bound address [] = 0
lower_bound address (r ∷ m) = if ltb r.low address then suc (lower_bound address m) else 0

-- map::find
unfoldable pub find_range : ℕ → List AddressRange → Option AddressRange
find_range address [] = none
find_range address (r ∷ m) = if r.low == address then some r else find_range address m

unfoldable pub get_symbol_at_address : Elf → FileAddress → Option Symbol
unfolding find_range
get_symbol_at_address elf address =
    if same_elf address.elf (some elf.id)
    then elim (find_range address.addr elf.symbol_addr_map) [ none ↦ none | some r ↦ some r.symbol ]
    else none

-- The entry before an iterator, if it has the address inside.
unfoldable pub symbol_before : ℕ → ℕ → List AddressRange → Option Symbol
symbol_before address zero m = none
symbol_before address (suc it) m = elim (get_elem? m it) [
  | none ↦ none
  | some r ↦ if ltb r.low address && ltb address r.high then some r.symbol else none
]

-- What the function returns from the iterator of `lower_bound` on.
unfoldable pub search_at : ℕ → ℕ → List AddressRange → Option Symbol
unfolding symbol_before
search_at address it m = elim (get_elem? m it) [
  | none ↦ symbol_before address it m
  | some r ↦ if r.low == address then some r.symbol else symbol_before address it m
]

unfoldable pub search_ranges : ℕ → List AddressRange → Option Symbol
unfolding lower_bound search_at
search_ranges address m = search_at address (lower_bound address m) m

unfoldable pub get_symbol_containing_address : Elf → FileAddress → Option Symbol
unfolding search_ranges
get_symbol_containing_address elf address =
    if not (same_elf address.elf (some elf.id)) || length elf.symbol_addr_map == 0
    then none
    else search_ranges address.addr elf.symbol_addr_map
