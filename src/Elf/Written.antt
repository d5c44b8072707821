-- ===== src/Elf/Written.antt =====
-- The section headers of a file that has been written.
use native.Mathlib.Nat.{mod-le}
use building_a_debugger.Common.{
  ℕ, zero, suc, ◌+◌, ◌%◌, ◌^◌, ◌<◌, ◌≤◌, ◌≡◌, ◌≢◌, refl, ap, ◌∙◌, List, [], ◌∷◌, ◌++◌, map, ◌==◌,
  not, ◌&&◌, ==_ne, if◌then◌else◌, length, take, drop, All, Run, ok, ◌>>=◌, arith,
}
use building_a_debugger.Common.Bytes.{as_bytes}
use building_a_debugger.Dwarf.Cursor.Words.{fixed_int_word, behind_word}
use building_a_debugger.Elf.{
  FileHeader, SectionHeader, word, read_section_header, read_section_headers, section_count,
  parse_section_headers,
}

-- A whole Elf64_Shdr.
pub record FullHeader : Type 0 where
  pub section : SectionHeader
  pub sh_type : ℕ
  pub sh_flags : ℕ
  pub sh_link : ℕ
  pub sh_info : ℕ
  pub sh_addralign : ℕ

-- The 64 bytes of a header, in front of others.
abbrev pub write_header : FullHeader → List ℕ → List ℕ
write_header f tail =
    as_bytes 4 f.section.sh_name
    ++ (as_bytes 4 f.sh_type
        ++ (as_bytes 8 f.sh_flags
            ++ (as_bytes 8 f.section.sh_addr
                ++ (as_bytes 8 f.section.sh_offset
                    ++ (as_bytes 8 f.section.sh_size
                        ++ (as_bytes 4 f.sh_link
                            ++ (as_bytes 4 f.sh_info
                                ++ (as_bytes 8 f.sh_addralign
                                    ++ (as_bytes 8 f.section.sh_entsize ++ tail)))))))))

abbrev pub write_headers : List FullHeader → List ℕ → List ℕ
write_headers [] tail = tail
write_headers (f ∷ fs) tail = write_header f (write_headers fs tail)

-- The members that are read fit their widths.
abbrev pub Fits : FullHeader → Type 0
Fits f =
    (f.section.sh_name < 2 ^ 32)
    × (f.section.sh_addr < 2 ^ 64)
    × (f.section.sh_offset < 2 ^ 64)
    × (f.section.sh_size < 2 ^ 64)
    × (f.section.sh_entsize < 2 ^ 64)

word_at :
    (file : List ℕ) (n pos v : ℕ) (tail : List ℕ)
    → v < 256 ^ n
    → drop pos file ≡ as_bytes n v ++ tail
    → word file n pos ≡ ok v
unfolding word
word_at file n pos v tail small e =
    ap (λ r. r >>= λ r. ok r.0)
      (fixed_int_word file n (record { pos = pos; end = length file }) v tail small e)

-- What stands behind a word, at a position written otherwise.
behind :
    (file : List ℕ) (n pos next v : ℕ) (tail : List ℕ)
    → drop pos file ≡ as_bytes n v ++ tail
    → next ≡ pos + n
    → drop next file ≡ tail
behind file n pos next v tail e same = ap (λ p. drop p file) same ∙ behind_word file n pos v tail e

read_section_header-write :
    (file : List ℕ) (pos : ℕ) (f : FullHeader) (tail : List ℕ)
    → Fits f
    → drop pos file ≡ write_header f tail
    → (read_section_header file pos ≡ ok f.section) × (drop (pos + 64) file ≡ tail)
unfolding read_section_header
read_section_header-write file pos f tail (name, addr, offset, size, entsize) e =
    let e₁ = behind file 4 pos (pos + 4) f.section.sh_name _ e refl in
    let e₂ = behind file 4 (pos + 4) (pos + 8) f.sh_type _ e₁ (omega arith) in
    let e₃ = behind file 8 (pos + 8) (pos + 16) f.sh_flags _ e₂ (omega arith) in
    let e₄ = behind file 8 (pos + 16) (pos + 24) f.section.sh_addr _ e₃ (omega arith) in
    let e₅ = behind file 8 (pos + 24) (pos + 32) f.section.sh_offset _ e₄ (omega arith) in
    let e₆ = behind file 8 (pos + 32) (pos + 40) f.section.sh_size _ e₅ (omega arith) in
    let e₇ = behind file 4 (pos + 40) (pos + 44) f.sh_link _ e₆ (omega arith) in
    let e₈ = behind file 4 (pos + 44) (pos + 48) f.sh_info _ e₇ (omega arith) in
    let e₉ = behind file 8 (pos + 48) (pos + 56) f.sh_addralign _ e₈ (omega arith) in
    (
      rw
          (
            word_at file 4 pos f.section.sh_name _ name e,
            word_at file 8 (pos + 16) f.section.sh_addr _ addr e₃,
            word_at file 8 (pos + 24) f.section.sh_offset _ offset e₄,
            word_at file 8 (pos + 32) f.section.sh_size _ size e₅,
            word_at file 8 (pos + 56) f.section.sh_entsize tail entsize e₉,
          )
          refl,
      behind file 8 (pos + 56) (pos + 64) f.section.sh_entsize tail e₉ (omega arith),
    )

abbrev pub sections_of : List FullHeader → List SectionHeader
sections_of = map (λ f. f.section)

-- As many headers as are asked for, of those written.
read_section_headers-write :
    (file : List ℕ) (n pos : ℕ) (fs : List FullHeader) (tail : List ℕ)
    → n ≤ length fs
    → All Fits fs
    → drop pos file ≡ write_headers fs tail
    → read_section_headers file n pos ≡ ok (sections_of (take n fs))
unfolding read_section_headers
read_section_headers-write file zero pos fs tail h fits e = refl
read_section_headers-write file (suc n) pos [] tail h fits e = absurd (omega arith)
read_section_headers-write file (suc n) pos (f ∷ fs) tail h fits e =
    let (first, next) = read_section_header-write file pos f (write_headers fs tail) fits.0 e in
    rw first
      (rw (read_section_headers-write file n (pos + 64) fs tail (omega arith) fits.1 next) refl)

take_all : {A : Type 0} (xs : List A) → take (length xs) xs ≡ xs
take_all [] = refl
take_all (x ∷ xs) = ap (λ r. x ∷ r) (take_all xs)

-- ParseSectionHeaders returns the headers that stand at e_shoff, if e_shnum is their number.
pub parse_section_headers-write :
    (file : List ℕ) (h : FileHeader) (fs : List FullHeader) (tail : List ℕ)
    → All Fits fs
    → drop h.e_shoff file ≡ write_headers fs tail
    → 0 < length fs
    → h.e_shnum ≡ length fs
    → parse_section_headers file h ≡ ok (sections_of fs)
unfolding parse_section_headers section_count
parse_section_headers-write file h fs tail fits e some_sections count =
    ap
      (λ b. (if b && not (h.e_shentsize == 0) then extended else ok h.e_shnum) >>= λ n.
        read_section_headers file n h.e_shoff)
      (==_ne h.e_shnum 0 (omega arith))
    ∙ ap (λ n. read_section_headers file n h.e_shoff) count
    ∙ read_section_headers-write file (length fs) h.e_shoff fs tail (omega arith) fits e
    ∙ ap (λ t. ok (sections_of t)) (take_all fs)
  where
    extended : Run ℕ
    extended = read_section_header file h.e_shoff >>= λ first. ok (first.sh_size % 2 ^ 16)

-- A file that has too many sections for e_shnum has 0 there, and their number as the size of the
-- first. ParseSectionHeaders then returns as many headers as the number's 16 low bits say: all of
-- them below 65536, and otherwise only the first ones.
pub parse_section_headers-many :
    (file : List ℕ) (h : FileHeader) (f : FullHeader) (fs : List FullHeader) (tail : List ℕ)
    → All Fits (f ∷ fs)
    → drop h.e_shoff file ≡ write_headers (f ∷ fs) tail
    → h.e_shnum ≡ 0
    → h.e_shentsize ≢ 0
    → f.section.sh_size ≡ length (f ∷ fs)
    → parse_section_headers file h ≡ ok (sections_of (take (length (f ∷ fs) % 2 ^ 16) (f ∷ fs)))
unfolding parse_section_headers section_count
parse_section_headers-many file h f fs tail fits e none_given entry_size count =
    rw (none_given, ==_ne h.e_shentsize 0 entry_size)
      (ap
          (λ first.
            (first >>= λ s. ok (s.sh_size % 2 ^ 16)) >>= λ n. read_section_headers file n h.e_shoff)
          (read_section_header-write file h.e_shoff f (write_headers fs tail) fits.0 e).0
        ∙ ap (λ n. read_section_headers file (n % 2 ^ 16) h.e_shoff) count
        ∙ read_section_headers-write file (length (f ∷ fs) % 2 ^ 16) h.e_shoff (f ∷ fs) tail
            (mod-le (length (f ∷ fs)) (2 ^ 16)) fits e)
