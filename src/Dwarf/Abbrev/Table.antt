-- ===== src/Dwarf/Abbrev/Table.antt =====
-- LEB128 numbers and lists of attributes as they are written, for ParseAbbrevTable.
use building_a_debugger.Common.{
  ℕ, zero, suc, ◌+◌, ◌*◌, ◌%◌, ◌^◌, ◌<◌, ◌≡◌, refl, sym, ap, ◌∙◌, false, List, [], ◌∷◌, ◌++◌, arith,
  ◌==◌, length, drop, drop-append, drop-drop, take, All, Run, ok, ◌>>=◌,
}
use mathlib.Core.List.{append-nil, append_assoc}
use building_a_debugger.Dwarf.Cursor.{Cursor, advance, u8, uleb128}
use building_a_debugger.Dwarf.Cursor.Words.{fixed_int_at}
use building_a_debugger.Dwarf.Leb.{mark, group_value, IsGroup, leb_loop-mark}
use building_a_debugger.Dwarf.Abbrev.{AttrSpec, Sections, read_attr_specs}

-- A number as its groups of 7 bits, the lowest first.
pub record Leb : Type 0 where
  pub first : ℕ
  pub others : List ℕ

abbrev pub value : Leb → ℕ
value n = group_value (n.first ∷ n.others) % 2 ^ 64

abbrev pub IsLeb : Leb → Type 0
IsLeb n = (length n.others < 10) × All IsGroup (n.first ∷ n.others)

abbrev pub write_leb : Leb → List ℕ → List ℕ
write_leb n rest = mark n.first n.others ++ rest

pub length-mark : (g : ℕ) (gs : List ℕ) → length (mark g gs) ≡ suc (length gs)
length-mark g [] = refl
length-mark g (h ∷ hs) = ap suc (length-mark h hs)

pub leb_at :
    (file : List ℕ) (c : Cursor) (n : Leb) (tail : List ℕ)
    → IsLeb n
    → drop c.pos file ≡ write_leb n tail
    → uleb128 file c ≡ ok (value n, advance (suc (length n.others)) c)
unfolding uleb128
leb_at file c n tail (short, groups) e =
    rw (e, leb_loop-mark n.first n.others 0 0 0 tail (omega arith) (omega arith) groups)
      (ground arith)

pub behind_leb :
    (file : List ℕ) (p : ℕ) (n : Leb) (tail : List ℕ)
    → drop p file ≡ write_leb n tail
    → drop (p + suc (length n.others)) file ≡ tail
behind_leb file p n tail e =
    sym (drop-drop (suc (length n.others)) p file)
    ∙ ap (drop (suc (length n.others))) e
    ∙ ap (λ k. drop k (write_leb n tail)) (sym (length-mark n.first n.others))
    ∙ drop-append (mark n.first n.others) tail

pub byte_at :
    (file : List ℕ) (c : Cursor) (b : ℕ) (tail : List ℕ)
    → drop c.pos file ≡ b ∷ tail
    → u8 file c ≡ ok (b, advance 1 c)
unfolding u8
byte_at file c b tail e =
    fixed_int_at file 1 c (b ∷ []) (ap (take 1) e) refl ∙ ap (λ t. ok (t, advance 1 c)) single
  where
    single : b + 256 * 0 ≡ b
    single = omega arith

pub behind_byte :
    (file : List ℕ) (p b : ℕ) (tail : List ℕ) → drop p file ≡ b ∷ tail → drop (p + 1) file ≡ tail
behind_byte file p b tail e = sym (drop-drop 1 p file) ∙ ap (drop 1) e

-- An attribute and its form. A zero attribute with a zero form ends a list of them.
pub record Spec : Type 0 where
  pub attr : Leb
  pub form : Leb

abbrev pub none_leb : Leb
none_leb = record { first = 0; others = [] }

abbrev pub write_specs : List Spec → List ℕ → List ℕ
write_specs [] rest = write_leb none_leb (write_leb none_leb rest)
write_specs (a ∷ specs) rest = write_leb a.attr (write_leb a.form (write_specs specs rest))

abbrev pub IsSpec : Spec → Type 0
IsSpec a = IsLeb a.attr × IsLeb a.form × (value a.attr == 0 ≡ false)

abbrev pub specs_of : List Spec → List AttrSpec
specs_of [] = []
specs_of (a ∷ specs) = record { attr = value a.attr; form = value a.form } ∷ specs_of specs

pub none-IsLeb : IsLeb none_leb
none-IsLeb = (omega arith, (omega arith, tt))

module _ (s : Sections) where
  specs_end :
      (fuel form : ℕ) (specs : List AttrSpec) (c c₁ c₂ : Cursor)
      → uleb128 s.file c ≡ ok (0, c₁)
      → uleb128 s.file c₁ ≡ ok (form, c₂)
      → read_attr_specs s (suc fuel) specs c ≡ ok (specs, c₂)
  unfolding read_attr_specs
  specs_end fuel form specs c c₁ c₂ e f = rw (◌>>=◌, e, f) refl

  specs_more :
      (fuel attr form : ℕ) (specs : List AttrSpec) (c c₁ c₂ : Cursor)
      → uleb128 s.file c ≡ ok (attr, c₁)
      → uleb128 s.file c₁ ≡ ok (form, c₂)
      → attr == 0 ≡ false
      → read_attr_specs s (suc fuel) specs c
        ≡ read_attr_specs s fuel (specs ++ record { attr = attr; form = form } ∷ []) c₂
  unfolding read_attr_specs
  specs_more fuel attr form specs c c₁ c₂ e f g = rw (◌>>=◌, e, f, g) refl

  -- The list is read, and the cursor stands behind it.
  abbrev pub SpecsRead : List AttrSpec → List ℕ → Run (List AttrSpec × Cursor) → Type 0
  SpecsRead specs rest r = (c : Cursor) × (r ≡ ok (specs, c)) × (drop c.pos s.file ≡ rest)

  pub specs_read :
      (specs : List Spec) (fuel : ℕ) (acc : List AttrSpec) (rest : List ℕ) (c : Cursor)
      → All IsSpec specs
      → drop c.pos s.file ≡ write_specs specs rest
      → length specs < fuel
      → SpecsRead (acc ++ specs_of specs) rest (read_attr_specs s fuel acc c)
  specs_read specs zero acc rest c valid e h = absurd (omega arith)
  specs_read [] (suc fuel) acc rest c valid e h =
      let c₁ : Cursor = advance 1 c in
      let e₁ = behind_leb s.file c.pos none_leb (write_leb none_leb rest) e in
      (
        advance 1 c₁,
        specs_end fuel 0 acc c c₁ (advance 1 c₁)
              (leb_at s.file c none_leb (write_leb none_leb rest) none-IsLeb e)
              (leb_at s.file c₁ none_leb rest none-IsLeb e₁)
            ∙ ap (λ t. ok (t, advance 1 c₁)) (sym (append-nil acc)),
        behind_leb s.file c₁.pos none_leb rest e₁,
      )
  specs_read (a ∷ specs) (suc fuel) acc rest c valid e h =
      let c₁ : Cursor = advance (suc (length a.attr.others)) c in
      let c₂ : Cursor = advance (suc (length a.form.others)) c₁ in
      let new : AttrSpec = record { attr = value a.attr; form = value a.form } in
      let tail = write_specs specs rest in
      let e₁ = behind_leb s.file c.pos a.attr (write_leb a.form tail) e in
      let (c₃, read, behind) =
        specs_read specs fuel (acc ++ new ∷ []) rest c₂ valid.1
          (behind_leb s.file c₁.pos a.form tail e₁) (omega arith) in
      (
        c₃,
        specs_more fuel (value a.attr) (value a.form) acc c c₁ c₂
              (leb_at s.file c a.attr (write_leb a.form tail) valid.0.0 e)
              (leb_at s.file c₁ a.form tail valid.0.1 e₁) valid.0.2
            ∙ read
            ∙ ap (λ t. ok (t, c₃)) (append_assoc acc (new ∷ []) (specs_of specs)),
        behind,
      )
