-- ===== src/Elf/SymbolNames.antt =====
-- The map from names to symbols, in a file that has been opened.
use mathlib.Core.List.{append_assoc, append-nil, Perm}
use building_a_debugger.Common.{
  ℕ, ◌≡◌, refl, sym, ap, ap₂, subst, ◌∙◌, Bool, true, false, List, [], ◌∷◌, ◌++◌, if◌then◌else◌,
  none, select, All, Run, ok, throws, undefined, bind-eq-ok, ok-injective,
}
use building_a_debugger.Common.Text.{text_eq}
use building_a_debugger.Mapping.{map_file}
use building_a_debugger.Elf.{
  AddressRange, Symbol, NameKey, live, dangling, Elf, get_string, get_section, read_file_header,
  parse_section_headers, build_section_map,
}
use building_a_debugger.Elf.Symbols.{
  NameLibrary, insert_name, insert_names, build_symbol_maps, insert_symbol, load_symbols,
  without_symbols, open_elf, parse_symbol_table, matching_names, get_symbols_by_name,
}

-- The name of a symbol, and whether it can be demangled.
abbrev pub name_of : Elf → Symbol → List ℕ
name_of elf symbol = elim (get_string elf symbol.st_name) [
  | ok name ↦ name
  | throws e ↦ []
  | undefined ↦ []
]

-- The key is a view of characters that are still there.
abbrev pub IsLive : NameKey → Type 0
IsLive (live text) = Unit {0}
IsLive dangling = ⊥

-- What the standard library promises of an unordered_multimap: it reads no keys but those that it
-- holds, and equal_range finds each entry once, in an order that is not specified.
pub record NameLaws (library : NameLibrary) : Type 0 where
  pub reads_freed-IsLive :
      (text : List ℕ) (m : List (NameKey × Symbol))
      → All (λ e. IsLive e.0) m
      → library.reads_freed text m ≡ false
  pub arrange-Perm : (symbols : List Symbol) → Perm (library.arrange symbols) symbols

-- The name of a symbol cannot be demangled.
abbrev pub IsPlain : NameLibrary → Elf → Symbol → Type 0
IsPlain library elf symbol = library.demangle (name_of elf symbol) ≡ none

abbrev entries_of : Elf → List Symbol → List (NameKey × Symbol)
entries_of elf [] = []
entries_of elf (symbol ∷ rest) = (live (name_of elf symbol), symbol) ∷ entries_of elf rest

entries_of-IsLive :
    (elf : Elf) (symbols : List Symbol) → All (λ e. IsLive e.0) (entries_of elf symbols)
entries_of-IsLive elf [] = tt
entries_of-IsLive elf (symbol ∷ rest) = (tt, entries_of-IsLive elf rest)

matching_names-entries :
    (elf : Elf) (name : List ℕ) (symbols : List Symbol)
    → matching_names name (entries_of elf symbols)
      ≡ select (λ symbol. text_eq (name_of elf symbol) name) symbols
unfolding matching_names
matching_names-entries elf name [] = refl
matching_names-entries elf name (symbol ∷ rest) =
    ap (λ found. if text_eq (name_of elf symbol) name then symbol ∷ found else found)
      (matching_names-entries elf name rest)

module _ (library : NameLibrary) where
  insert_name-live :
      (name : List ℕ) (symbol : Symbol) (m out : List (NameKey × Symbol))
      → insert_name library name (live name) symbol m ≡ ok out
      → out ≡ m ++ (live name, symbol) ∷ []
  unfolding insert_name
  insert_name-live name symbol m out h = by_test (library.reads_freed name m) h
    where
      by_test :
          (b : Bool)
          → (if b then undefined else ok (m ++ (live name, symbol) ∷ [])) ≡ ok out
          → out ≡ m ++ (live name, symbol) ∷ []
      by_test true e = cc
      by_test false e = sym (ok-injective e)

  insert_names-plain :
      (name : List ℕ) (symbol : Symbol) (m : List (NameKey × Symbol))
      → library.demangle name ≡ none
      → insert_names library name symbol m ≡ insert_name library name (live name) symbol m
  unfolding insert_names
  insert_names-plain name symbol m e = rw (e, insert_names) refl

  build_symbol_maps-names :
      (elf : Elf) (symbols : List Symbol) (names : List (NameKey × Symbol))
      (ranges : List AddressRange) (out : List (NameKey × Symbol) × List AddressRange)
      → All (IsPlain library elf) symbols
      → build_symbol_maps library elf symbols names ranges ≡ ok out
      → out.0 ≡ names ++ entries_of elf symbols
  unfolding build_symbol_maps
  build_symbol_maps-names elf [] names ranges out plain h =
      ap (λ r. r.0) (sym (ok-injective h)) ∙ sym (append-nil names)
  build_symbol_maps-names elf (symbol ∷ rest) names ranges out plain h =
      let (name, read, h') = bind-eq-ok (get_string elf symbol.st_name) _ out h in
      let (names', made, h'') = bind-eq-ok (insert_names library name symbol names) _ out h' in
      let named : name ≡ name_of elf symbol =
        ap (λ (r : Run (List ℕ)). elim r [ ok n ↦ n | throws e ↦ [] | undefined ↦ [] ])
          (sym read) in
      let added : names' ≡ names ++ (live name, symbol) ∷ [] =
        insert_name-live name symbol names names' (
          sym (insert_names-plain name symbol names (ap library.demangle named ∙ plain.0))
          ∙ made) in
      build_symbol_maps-names elf rest names' (insert_symbol symbol ranges) out plain.1 h''
      ∙ ap (λ m. m ++ entries_of elf rest) added
      ∙ append_assoc names ((live name, symbol) ∷ []) (entries_of elf rest)
      ∙ ap (λ n. names ++ (live n, symbol) ∷ entries_of elf rest) named

  same_strings :
      (bare elf : Elf) (index : ℕ)
      → elf.section_map ≡ bare.section_map
      → elf.file ≡ bare.file
      → get_string elf index ≡ get_string bare index
  unfolding get_string get_section
  same_strings bare elf index sections file = rw (sections, file) refl

  -- Names read in one object are those read in another with the same strings.
  same_name :
      (bare elf : Elf) (symbol : Symbol)
      → ((index : ℕ) → get_string elf index ≡ get_string bare index)
      → name_of elf symbol ≡ name_of bare symbol
  same_name bare elf symbol same =
      ap (λ (r : Run (List ℕ)). elim r [ ok n ↦ n | throws e ↦ [] | undefined ↦ [] ])
        (same symbol.st_name)

  same_entries :
      (bare elf : Elf) (symbols : List Symbol)
      → ((index : ℕ) → get_string elf index ≡ get_string bare index)
      → entries_of bare symbols ≡ entries_of elf symbols
  same_entries bare elf [] same = refl
  same_entries bare elf (symbol ∷ rest) same =
      ap₂ (λ n entries. (live n, symbol) ∷ entries) (sym (same_name bare elf symbol same))
        (same_entries bare elf rest same)

  same-IsPlain :
      (bare elf : Elf) (symbols : List Symbol)
      → ((index : ℕ) → get_string elf index ≡ get_string bare index)
      → All (IsPlain library elf) symbols
      → All (IsPlain library bare) symbols
  same-IsPlain bare elf [] same h = tt
  same-IsPlain bare elf (symbol ∷ rest) same h = (
    ap library.demangle (sym (same_name bare elf symbol same)) ∙ h.0,
    same-IsPlain bare elf rest same h.1,
  )

  load_symbols-names :
      (bare elf : Elf)
      → load_symbols library bare ≡ ok elf
      → All (IsPlain library elf) elf.symbol_table
      → elf.symbol_name_map ≡ entries_of elf elf.symbol_table
  unfolding load_symbols
  load_symbols-names bare elf h plain =
      let (symbols, _, h₁) = bind-eq-ok (parse_symbol_table bare) _ elf h in
      let (maps, made, h₂) = bind-eq-ok (build_symbol_maps library bare symbols [] []) _ elf h₁ in
      let whole = ok-injective h₂ in
      let table : symbols ≡ elf.symbol_table = ap (λ e. e.symbol_table) whole in
      let same : (index : ℕ) → get_string elf index ≡ get_string bare index = λ i.
        same_strings bare elf i (sym (ap (λ e. e.section_map) whole))
          (sym (ap (λ e. e.file) whole)) in
      sym (ap (λ e. e.symbol_name_map) whole)
      ∙ build_symbol_maps-names bare symbols [] [] maps
          (subst (All (IsPlain library bare)) (sym table)
            (same-IsPlain bare elf elf.symbol_table same plain))
          made
      ∙ ap (entries_of bare) table
      ∙ same_entries bare elf elf.symbol_table same

  -- In a file that has been opened, where no name of a symbol can be demangled, GetSymbolsByName
  -- returns the symbols of the table that have the name, each as often as it stands there, in the
  -- order that the standard library chooses.
  pub get_symbols_by_name-named :
      (laws : NameLaws library) (id : ℕ) (contents : List ℕ) (elf : Elf) (name : List ℕ)
      → open_elf library id contents ≡ ok elf
      → All (IsPlain library elf) elf.symbol_table
      → (found : List Symbol) × (get_symbols_by_name library elf name ≡ ok found)
        × Perm found (select (λ symbol. text_eq (name_of elf symbol) name) elf.symbol_table)
  unfolding open_elf get_symbols_by_name
  get_symbols_by_name-named laws id contents elf name h plain =
      let file = map_file contents in
      let (header, _, h₁) = bind-eq-ok (read_file_header file) _ elf h in
      let (headers, _, h₂) = bind-eq-ok (parse_section_headers file header) _ elf h₁ in
      let (sections, _, h₃) =
        bind-eq-ok (build_section_map file header headers headers []) _ elf h₂ in
      let names =
        load_symbols-names (without_symbols id file header headers sections) elf h₃ plain in
      let whole =
        ap (matching_names name) names ∙ matching_names-entries elf name elf.symbol_table in
      let unread =
        ap (library.reads_freed name) names
        ∙ laws.reads_freed-IsLive name (entries_of elf elf.symbol_table)
            (entries_of-IsLive elf elf.symbol_table) in
      (
        library.arrange (matching_names name elf.symbol_name_map),
        rw unread refl,
        subst (Perm (library.arrange (matching_names name elf.symbol_name_map))) whole
            (laws.arrange-Perm (matching_names name elf.symbol_name_map)),
      )
