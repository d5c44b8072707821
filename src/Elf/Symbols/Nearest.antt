-- ===== src/Elf/Symbols/Nearest.antt =====
-- The search for the symbol that contains an address, against the symbol table.
use building_a_debugger.Common.{
  ℕ, ◌≡◌, refl, sym, ap, ◌∙◌, ◌⊎◌, inl, inr, Bool, true, false, ◌&&◌, ◌||◌, not, List, [], ◌∷◌, ltb,
  leb, ◌==◌, Bool-cases, if◌then◌else◌, Option, none, some, length, ok, bind-eq-ok, ok-injective,
  arith,
}
use building_a_debugger.Address.{add64, FileAddress, same_elf}
use building_a_debugger.Mapping.{map_file}
use building_a_debugger.Elf.{
  AddressRange, Symbol, NameKey, Elf, get_string, read_file_header, parse_section_headers,
  build_section_map,
}
use building_a_debugger.Elf.Symbols.{
  has_address, range_of, insert_symbol, build_symbol_maps, search_ranges, search_at, lower_bound,
  symbol_before, get_symbol_containing_address, NameLibrary, insert_names, open_elf, load_symbols,
  without_symbols, parse_symbol_table,
}
use building_a_debugger.Elf.Symbols.Ordered.{
  SortedFrom, insert_range-SortedFrom, floor, closest, floor-insert_range, answer,
  search_ranges-floor,
}

-- A symbol with an address that is nearer to a given address from below than the one held.
abbrev pub nearer : ℕ → Symbol → Option Symbol → Option Symbol
nearer a symbol none = if has_address symbol && leb symbol.st_value a then some symbol else none
nearer a symbol (some held) =
    if has_address symbol && (leb symbol.st_value a && ltb held.st_value symbol.st_value)
    then some symbol
    else some held

-- The first of the symbols with the greatest value that is not above an address.
abbrev pub nearest : ℕ → Option Symbol → List Symbol → Option Symbol
nearest a held [] = held
nearest a held (symbol ∷ rest) = nearest a (nearer a symbol held) rest

-- The address is the symbol's value, or between it and its end.
abbrev pub symbol_covers : ℕ → Symbol → Bool
symbol_covers a symbol =
    symbol.st_value == a || (ltb symbol.st_value a && ltb a (add64 symbol.st_value symbol.st_size))

abbrev pub nearest_symbol : ℕ → List Symbol → Option Symbol
nearest_symbol a symbols = elim (nearest a none symbols) [
  | none ↦ none
  | some symbol ↦ if symbol_covers a symbol then some symbol else none
]

-- The map of addresses that the loop makes from one on.
abbrev pub ranges_of : List AddressRange → List Symbol → List AddressRange
ranges_of m [] = m
ranges_of m (symbol ∷ rest) = ranges_of (insert_symbol symbol m) rest

abbrev range_option : Option Symbol → Option AddressRange
range_option none = none
range_option (some symbol) = some (range_of symbol)

insert_symbol-SortedFrom :
    (symbol : Symbol) (m : List AddressRange)
    → SortedFrom 0 m
    → SortedFrom 0 (insert_symbol symbol m)
insert_symbol-SortedFrom symbol m k = on_test (Bool-cases (has_address symbol))
  where
    on_test :
        (has_address symbol ≡ true) ⊎ (has_address symbol ≡ false)
        → SortedFrom 0 (insert_symbol symbol m)
    on_test (inl e) = rw e (insert_range-SortedFrom 0 (range_of symbol) m (omega arith) k)
    on_test (inr e) = rw e k

floor-insert_symbol :
    (a : ℕ) (symbol : Symbol) (m : List AddressRange) (held : Option Symbol)
    → SortedFrom 0 m
    → floor a m ≡ range_option held
    → floor a (insert_symbol symbol m) ≡ range_option (nearer a symbol held)
floor-insert_symbol a symbol m held k e = on_test (Bool-cases (has_address symbol)) held e
  where
    on_test :
        (has_address symbol ≡ true) ⊎ (has_address symbol ≡ false)
        → (held : Option Symbol) → floor a m ≡ range_option held
        → floor a (insert_symbol symbol m) ≡ range_option (nearer a symbol held)
    on_test (inr h) none e = rw h (ground (arith, e))
    on_test (inr h) (some s) e = rw h (ground (arith, e))
    on_test (inl h) held e = rw h (
        floor-insert_range a 0 (range_of symbol) m k
        ∙ ap (closest a (range_of symbol)) e
        ∙ closest-nearer held)
      where
        closest-nearer :
            (held : Option Symbol)
            → closest a (range_of symbol) (range_option held) ≡ range_option (nearer a symbol held)
        closest-nearer none = rw h (ground arith)
        closest-nearer (some s) = rw h (ground arith)

floor-ranges_of :
    (a : ℕ) (symbols : List Symbol) (m : List AddressRange) (held : Option Symbol)
    → SortedFrom 0 m
    → floor a m ≡ range_option held
    → floor a (ranges_of m symbols) ≡ range_option (nearest a held symbols)
floor-ranges_of a [] m held k e = e
floor-ranges_of a (symbol ∷ rest) m held k e =
    floor-ranges_of a rest (insert_symbol symbol m) (nearer a symbol held)
      (insert_symbol-SortedFrom symbol m k) (floor-insert_symbol a symbol m held k e)

ranges_of-SortedFrom :
    (symbols : List Symbol) (m : List AddressRange)
    → SortedFrom 0 m
    → SortedFrom 0 (ranges_of m symbols)
ranges_of-SortedFrom [] m k = k
ranges_of-SortedFrom (symbol ∷ rest) m k =
    ranges_of-SortedFrom rest (insert_symbol symbol m) (insert_symbol-SortedFrom symbol m k)

build_symbol_maps-ranges :
    (library : NameLibrary) (elf : Elf) (symbols : List Symbol) (names : List (NameKey × Symbol))
    (ranges : List AddressRange) (out : List (NameKey × Symbol) × List AddressRange)
    → build_symbol_maps library elf symbols names ranges ≡ ok out
    → out.1 ≡ ranges_of ranges symbols
unfolding build_symbol_maps
build_symbol_maps-ranges library elf [] names ranges out h = cc
build_symbol_maps-ranges library elf (symbol ∷ rest) names ranges out h =
    let (name, _, h') = bind-eq-ok (get_string elf symbol.st_name) _ out h in
    let (names', _, h'') = bind-eq-ok (insert_names library name symbol names) _ out h' in
    build_symbol_maps-ranges library elf rest names' (insert_symbol symbol ranges) out h''

load_symbols-ranges :
    (library : NameLibrary) (bare elf : Elf)
    → load_symbols library bare ≡ ok elf
    → (elf.symbol_addr_map ≡ ranges_of [] elf.symbol_table) × (elf.id ≡ bare.id)
unfolding load_symbols
load_symbols-ranges library bare elf h =
    let (symbols, _, h₁) = bind-eq-ok (parse_symbol_table bare) _ elf h in
    let (maps, made, h₂) = bind-eq-ok (build_symbol_maps library bare symbols [] []) _ elf h₁ in
    let whole = ok-injective h₂ in
    let table : symbols ≡ elf.symbol_table = ap (λ e. e.symbol_table) whole in
    (
      sym (ap (λ e. e.symbol_addr_map) whole)
          ∙ build_symbol_maps-ranges library bare symbols [] [] maps made
          ∙ ap (ranges_of []) table,
      sym (ap (λ e. e.id) whole),
    )

-- The map of an opened file is made from its symbol table.
pub open_elf-ranges :
    (library : NameLibrary) (id : ℕ) (contents : List ℕ) (elf : Elf)
    → open_elf library id contents ≡ ok elf
    → (elf.symbol_addr_map ≡ ranges_of [] elf.symbol_table) × (elf.id ≡ id)
unfolding open_elf
open_elf-ranges library id contents elf h =
    let file = map_file contents in
    let (header, _, h₁) = bind-eq-ok (read_file_header file) _ elf h in
    let (headers, _, h₂) = bind-eq-ok (parse_section_headers file header) _ elf h₁ in
    let (sections, _, h₃) =
      bind-eq-ok (build_section_map file header headers headers []) _ elf h₂ in
    load_symbols-ranges library (without_symbols id file header headers sections) elf h₃

search_ranges-nearest :
    (a : ℕ) (symbols : List Symbol)
    → search_ranges a (ranges_of [] symbols) ≡ nearest_symbol a symbols
search_ranges-nearest a symbols =
    search_ranges-floor a 0 (ranges_of [] symbols) (ranges_of-SortedFrom symbols [] tt)
    ∙ ap (answer a) (floor-ranges_of a symbols [] none tt refl)
    ∙ same (nearest a none symbols)
  where
    same :
        (o : Option Symbol)
        → answer a (range_option o) ≡ elim o [
          | none ↦ none
          | some symbol ↦ if symbol_covers a symbol then some symbol else none
        ]
    same none = refl
    same (some symbol) = refl

guarded :
    (same : Bool) (a : ℕ) (m : List AddressRange)
    → (if not same || length m == 0 then none else search_ranges a m)
      ≡ (if same then search_ranges a m else none)
unfolding search_ranges search_at lower_bound symbol_before
guarded false a m = refl
guarded true a [] = refl
guarded true a (r ∷ m) = ground arith

-- In a file that has been opened, GetSymbolContainingAddress answers with the symbol that is nearest
-- to the address from below, the first of the table where several are, among those with a value,
-- a name and no thread-local storage, if the address is its value or lies between its value and its
-- end; it answers with none if that symbol does not reach so far, or if the address is of another
-- file.
pub get_symbol_containing_address-nearest :
    (library : NameLibrary) (id : ℕ) (file : List ℕ) (elf : Elf) (address : FileAddress)
    → open_elf library id file ≡ ok elf
    → get_symbol_containing_address elf address ≡ (
        if same_elf address.elf (some id)
        then nearest_symbol address.addr elf.symbol_table
        else none)
unfolding get_symbol_containing_address
get_symbol_containing_address-nearest library id file elf address h =
    let (made, same_id) = open_elf-ranges library id file elf h in
    let a = address.addr in
    ap
      (λ t.
        if not (same_elf address.elf (some t)) || length elf.symbol_addr_map == 0
        then none
        else search_ranges a elf.symbol_addr_map)
      same_id
    ∙ guarded (same_elf address.elf (some id)) a elf.symbol_addr_map
    ∙ ap (λ t. if same_elf address.elf (some id) then t else none)
        (ap (search_ranges a) made ∙ search_ranges-nearest a elf.symbol_table)
