-- ===== src/Elf/SectionMap.antt =====
-- The map from names to sections, in a file that has been opened.
use building_a_debugger.Common.{
  ℕ, ◌≡◌, refl, sym, ap, subst, ◌∙◌, ◌⊎◌, inl, inr, Bool, true, false, List, [], ◌∷◌, Bool-cases,
  if◌then◌else◌, Option, none, some, Run, ok, throws, undefined, bind-eq-ok, ok-injective,
}
use building_a_debugger.Common.Text.{text_eq, text_eq→eq, text_eq_refl}
use building_a_debugger.Mapping.{map_file}
use building_a_debugger.Elf.{
  FileHeader, SectionHeader, Elf, get_section, get_section_name, read_file_header,
  parse_section_headers, build_section_map, assign, find_section,
}
use building_a_debugger.Elf.Symbols.{
  NameLibrary, build_symbol_maps, load_symbols, without_symbols, open_elf, parse_symbol_table,
}

not_both :
    (key other name : List ℕ)
    → text_eq key other ≡ false
    → text_eq key name ≡ true
    → text_eq other name ≡ true
    → ⊥
not_both key other name e a b =
    let same : key ≡ other = text_eq→eq key name a ∙ sym (text_eq→eq other name b) in
    let equal : text_eq other other ≡ false = subst (λ k. text_eq k other ≡ false) same e in
    cc (text_eq_refl other)

find_section-assign :
    (other : List ℕ) (section : SectionHeader) (name : List ℕ) (m : List (List ℕ × SectionHeader))
    → find_section name (assign other section m)
      ≡ (if text_eq other name then some section else find_section name m)
unfolding find_section assign
find_section-assign other section name [] = refl
find_section-assign other section name ((key, old) ∷ m) = elim (Bool-cases (text_eq key other)) [
  | inl e ↦
      rw (e, assign)
        (subst
          (λ k. (if text_eq k name then some section else find_section name m) ≡ (
            if text_eq other name
            then some section
            else if text_eq k name
            then some old
            else find_section name m))
          (sym (text_eq→eq key other e)) (both (text_eq other name)))
  | inr e ↦
      rw (e, assign)
        (rw (find_section-assign other section name m)
          (apart e (Bool-cases (text_eq key name)) (Bool-cases (text_eq other name))))
]
  where
    both :
        (b : Bool)
        → (if b then some section else find_section name m)
          ≡ (if b then some section else if b then some old else find_section name m)
    both true = refl
    both false = refl

    apart :
        text_eq key other ≡ false
        → (text_eq key name ≡ true) ⊎ (text_eq key name ≡ false)
        → (text_eq other name ≡ true) ⊎ (text_eq other name ≡ false)
        → (if text_eq key name
            then some old
            else if text_eq other name
            then some section
            else find_section name m)
          ≡ (if text_eq other name
              then some section
              else if text_eq key name
              then some old
              else find_section name m)
    apart e (inl a) (inl b) = absurd (not_both key other name e a b)
    apart e (inl a) (inr b) = rw (a, b) refl
    apart e (inr a) (inl b) = rw (a, b) refl
    apart e (inr a) (inr b) = rw (a, b) refl

-- What the sections with a name come to: the last of them, or the one held.
module _ (file : List ℕ) (h : FileHeader) (headers : List SectionHeader) where
  abbrev has_name : List ℕ → SectionHeader → Bool
  has_name name section = elim (get_section_name file h headers section.sh_name) [
    | ok other ↦ text_eq other name
    | throws e ↦ false
    | undefined ↦ false
  ]

  abbrev pub last_named : List ℕ → Option SectionHeader → List SectionHeader → Option SectionHeader
  last_named name held [] = held
  last_named name held (section ∷ rest) =
      last_named name (if has_name name section then some section else held) rest

  build_section_map-last :
      (name : List ℕ) (rest : List SectionHeader) (m out : List (List ℕ × SectionHeader))
      → build_section_map file h headers rest m ≡ ok out
      → find_section name out ≡ last_named name (find_section name m) rest
  unfolding build_section_map
  build_section_map-last name [] m out e = ap (find_section name) (sym (ok-injective e))
  build_section_map-last name (section ∷ rest) m out e =
      let (other, read, e') =
        bind-eq-ok (get_section_name file h headers section.sh_name) _ out e in
      let same : text_eq other name ≡ has_name name section =
        ap
          (λ (r : Run (List ℕ)). elim r [
            | ok n ↦ text_eq n name
            | throws x ↦ false
            | undefined ↦ false
          ])
          (sym read) in
      build_section_map-last name rest (assign other section m) out e'
      ∙ ap (λ held. last_named name held rest)
          (find_section-assign other section name m
            ∙ ap (λ b. if b then some section else find_section name m) same)

load_symbols-sections :
    (library : NameLibrary) (bare elf : Elf)
    → load_symbols library bare ≡ ok elf
    → elf ≡ record bare {
      symbol_table = elf.symbol_table;
      symbol_name_map = elf.symbol_name_map;
      symbol_addr_map = elf.symbol_addr_map;
    }
unfolding load_symbols
load_symbols-sections library bare elf h =
    let (symbols, _, h₁) = bind-eq-ok (parse_symbol_table bare) _ elf h in
    let (maps, _, h₂) = bind-eq-ok (build_symbol_maps library bare symbols [] []) _ elf h₁ in
    subst
      (λ (e : Elf). e ≡ record bare {
        symbol_table = e.symbol_table;
        symbol_name_map = e.symbol_name_map;
        symbol_addr_map = e.symbol_addr_map;
      })
      (ok-injective h₂) refl

-- In a file that has been opened, GetSection returns the last of the section headers whose name in
-- the string table of section names is the one asked for, and none if there is no such header.
pub get_section-last :
    (library : NameLibrary) (id : ℕ) (contents : List ℕ) (elf : Elf) (name : List ℕ)
    → open_elf library id contents ≡ ok elf
    → get_section elf name
      ≡ last_named elf.file elf.header elf.section_headers name none elf.section_headers
unfolding open_elf get_section
get_section-last library id contents elf name h =
    let file = map_file contents in
    let (header, _, h₁) = bind-eq-ok (read_file_header file) _ elf h in
    let (headers, _, h₂) = bind-eq-ok (parse_section_headers file header) _ elf h₁ in
    let (sections, made, h₃) =
      bind-eq-ok (build_section_map file header headers headers []) _ elf h₂ in
    let whole =
      load_symbols-sections library (without_symbols id file header headers sections) elf h₃ in
    subst
      (λ (e : Elf).
        find_section name e.section_map
        ≡ last_named e.file e.header e.section_headers name none e.section_headers)
      (sym whole)
      (build_section_map-last file header headers name headers [] sections made
        ∙ unfold find_section in refl)
