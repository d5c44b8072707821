-- ===== src/Elf/Translate.antt =====
-- src/types.cpp: file addresses and virtual addresses of a loaded ELF file, and the overloads of the
-- searches of src/elf.cpp that take a virtual address. `objects` gives the object that a file
-- address refers to.
use building_a_debugger.Common.{
  ℕ, ◌+◌, ◌^◌, ◌<◌, ◌≡◌, refl, sym, ap, ap₂, ◌∙◌, true, List, [], ◌∷◌, ==_refl, if◌then◌else◌,
  Option, none, some, All, Run, ok, undefined, arith,
}
use building_a_debugger.Address.{
  FileAddress, add64, sub64, null_address, same_elf, sub64-add64, add64-sub64,
}
use building_a_debugger.Elf.{
  Elf, SectionHeader, Symbol, first_section, holds_file_address, holds_virtual_address,
  section_containing_file_address, section_containing_virtual_address,
}
use building_a_debugger.Elf.Symbols.{get_symbol_at_address, get_symbol_containing_address}

-- FileAddress::ToVirtualAddress. The assertion fails on a null address.
unfoldable pub to_virtual_address : (ℕ → Elf) → FileAddress → Run ℕ
unfolding section_containing_file_address
to_virtual_address objects address = elim address.elf [
  | none ↦ undefined
  | some id ↦ elim (section_containing_file_address (objects id) address) [
    | none ↦ ok 0
    | some section ↦ ok (add64 address.addr (objects id).load_bias)
  ]
]

-- VirtualAddress::ToFileAddress
unfoldable pub to_file_address : Elf → ℕ → FileAddress
unfolding section_containing_virtual_address
to_file_address elf address = elim (section_containing_virtual_address elf address) [
  | none ↦ null_address
  | some section ↦ record { elf = some elf.id; addr = sub64 address elf.load_bias }
]

unfoldable pub get_symbol_at_virtual_address : Elf → ℕ → Option Symbol
unfolding get_symbol_at_address to_file_address
get_symbol_at_virtual_address elf address = get_symbol_at_address elf (to_file_address elf address)

unfoldable pub get_symbol_containing_virtual_address : Elf → ℕ → Option Symbol
unfolding get_symbol_containing_address to_file_address
get_symbol_containing_virtual_address elf address =
    get_symbol_containing_address elf (to_file_address elf address)

-- The sections, where they are loaded, end below 2 ^ 64.
abbrev pub Fits : ℕ → SectionHeader → Type 0
Fits bias section = bias + section.sh_addr + section.sh_size < 2 ^ 64

same_holds :
    (bias a : ℕ) (section : SectionHeader)
    → a < 2 ^ 64
    → bias < 2 ^ 64
    → Fits bias section
    → holds_virtual_address bias (add64 a bias) section ≡ holds_file_address a section
same_holds bias a section ha hb fits = ground arith

same_sections :
    (bias a : ℕ) (sections : List SectionHeader)
    → a < 2 ^ 64
    → bias < 2 ^ 64
    → All (Fits bias) sections
    → first_section (holds_virtual_address bias (add64 a bias)) sections
      ≡ first_section (holds_file_address a) sections
same_sections bias a [] ha hb fits = refl
same_sections bias a (section ∷ rest) ha hb fits =
    ap₂ (λ test found. if test then some section else found)
      (same_holds bias a section ha hb fits.0) (same_sections bias a rest ha hb fits.1)

same_elf_self : (id : ℕ) → same_elf (some id) (some id) ≡ true
same_elf_self id = ==_refl id

-- An object that `objects` knows by its number, loaded so that its sections do not wrap.
pub record Loaded (objects : ℕ → Elf) (elf : Elf) : Type 0 where
  pub known : objects elf.id ≡ elf
  pub bias-lt : elf.load_bias < 2 ^ 64
  pub fits : All (Fits elf.load_bias) elf.section_headers

module _ (objects : ℕ → Elf) (elf : Elf) (loaded : Loaded objects elf) where
  in_file :
      (a : ℕ)
      → section_containing_file_address elf (record { elf = some elf.id; addr = a })
        ≡ first_section (holds_file_address a) elf.section_headers
  unfolding section_containing_file_address
  in_file a = rw (same_elf_self elf.id) refl

  -- A file address in a section has a virtual address in the same section.
  to_virtual_address-eq :
      (a : ℕ) (section : SectionHeader)
      → section_containing_file_address elf (record { elf = some elf.id; addr = a }) ≡ some section
      → to_virtual_address objects (record { elf = some elf.id; addr = a })
        ≡ ok (add64 a elf.load_bias)
  unfolding to_virtual_address
  to_virtual_address-eq a section h =
      ap
        (λ (e : Elf).
          elim (section_containing_file_address e (record { elf = some elf.id; addr = a })) [
            | none ↦ ok 0
            | some s ↦ ok (add64 a e.load_bias)
          ])
        loaded.known
      ∙ rw h refl

  to_file_address-eq :
      (v : ℕ) (section : SectionHeader)
      → section_containing_virtual_address elf v ≡ some section
      → to_file_address elf v ≡ record { elf = some elf.id; addr = sub64 v elf.load_bias }
  unfolding to_file_address
  to_file_address-eq v section h = rw (h, to_file_address) refl

  -- A file address that lies in a section is translated to a virtual address, which lies in the same
  -- section and is translated back to the file address, if the loaded sections do not wrap.
  pub to_file_address-to_virtual_address :
      (a : ℕ) (section : SectionHeader)
      → a < 2 ^ 64
      → section_containing_file_address elf (record { elf = some elf.id; addr = a }) ≡ some section
      → (v : ℕ) × (to_virtual_address objects (record { elf = some elf.id; addr = a }) ≡ ok v)
        × (section_containing_virtual_address elf v ≡ some section)
        × (to_file_address elf v ≡ record { elf = some elf.id; addr = a })
  to_file_address-to_virtual_address a section small h =
      let found : section_containing_virtual_address elf (add64 a elf.load_bias) ≡ some section =
        unfold section_containing_virtual_address in
        same_sections elf.load_bias a elf.section_headers small loaded.bias-lt loaded.fits
        ∙ sym (in_file a)
        ∙ h in
      (
        add64 a elf.load_bias,
        to_virtual_address-eq a section h,
        found,
        to_file_address-eq (add64 a elf.load_bias) section found
            ∙ ap (λ t. record { elf = some elf.id; addr = t })
                (sub64-add64 a elf.load_bias small loaded.bias-lt),
      )

  -- A virtual address that lies in a loaded section is translated to a file address, which is
  -- translated back to it.
  pub to_virtual_address-to_file_address :
      (v : ℕ) (section : SectionHeader)
      → v < 2 ^ 64
      → section_containing_virtual_address elf v ≡ some section
      → to_virtual_address objects (to_file_address elf v) ≡ ok v
  to_virtual_address-to_file_address v section small h =
      let a : ℕ = sub64 v elf.load_bias in
      let back : add64 a elf.load_bias ≡ v = add64-sub64 v elf.load_bias small loaded.bias-lt in
      let found : section_containing_file_address elf (record { elf = some elf.id; addr = a })
          ≡ some section =
        in_file a
        ∙ sym (
            same_sections elf.load_bias a elf.section_headers (omega arith) loaded.bias-lt
              loaded.fits)
        ∙ unfold section_containing_virtual_address in
          ap (λ t. first_section (holds_virtual_address elf.load_bias t) elf.section_headers) back
          ∙ h in
      ap (to_virtual_address objects) (to_file_address-eq v section h)
      ∙ to_virtual_address-eq a section found
      ∙ ap ok back
