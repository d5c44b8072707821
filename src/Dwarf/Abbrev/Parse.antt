-- ===== src/Dwarf/Abbrev/Parse.antt =====
-- ParseAbbrevTable, declaration by declaration.
use building_a_debugger.Common.{
  ℕ, zero, suc, ◌+◌, ◌<◌, ◌≡◌, refl, ap, ◌∙◌, false, not, List, [], ◌∷◌, arith, ◌==◌, length,
  length-drop, drop, All, ok, ◌>>=◌,
}
use building_a_debugger.Dwarf.Cursor.{Cursor, advance, u8, uleb128}
use building_a_debugger.Dwarf.Abbrev.{
  AttrSpec, AbbrevTable, Sections, span_end, emplace, read_attr_specs, read_entries,
  parse_abbrev_table,
}
use building_a_debugger.Dwarf.Abbrev.Table.{
  value, leb_at, behind_leb, byte_at, behind_byte, none_leb, write_specs, specs_of, none-IsLeb,
  specs_read,
}
use building_a_debugger.Dwarf.Abbrev.Declarations.{
  Body, write_body, IsBody, Decl, IsDecl, write_decls, abbrev_of, table_of, specs_fit, decls_fit,
}

module _ (s : Sections) where
  entry_last :
      (fuel tag flag : ℕ) (specs : List AttrSpec) (table : AbbrevTable) (c c₁ c₂ c₃ c₄ : Cursor)
      → uleb128 s.file c ≡ ok (0, c₁)
      → uleb128 s.file c₁ ≡ ok (tag, c₂)
      → u8 s.file c₂ ≡ ok (flag, c₃)
      → read_attr_specs s (suc (length s.file)) [] c₃ ≡ ok (specs, c₄)
      → read_entries s (suc fuel) table c ≡ ok table
  unfolding read_entries
  entry_last fuel tag flag specs table c c₁ c₂ c₃ c₄ e f g h = rw (◌>>=◌, e, f, g, h) refl

  pub entry_more :
      (fuel code tag flag : ℕ) (specs : List AttrSpec) (table : AbbrevTable)
      (c c₁ c₂ c₃ c₄ : Cursor)
      → uleb128 s.file c ≡ ok (code, c₁)
      → uleb128 s.file c₁ ≡ ok (tag, c₂)
      → u8 s.file c₂ ≡ ok (flag, c₃)
      → read_attr_specs s (suc (length s.file)) [] c₃ ≡ ok (specs, c₄)
      → code == 0 ≡ false
      → read_entries s (suc fuel) table c
        ≡ read_entries s fuel
            (emplace code
              (record {
                code = code;
                tag = tag;
                has_children = not (flag == 0);
                attr_specs = specs;
              })
              table)
            c₄
  unfolding read_entries
  entry_more fuel code tag flag specs table c c₁ c₂ c₃ c₄ e f g h k = rw (◌>>=◌, e, f, g, h, k) refl

  -- A body is read, and the cursor stands behind it.
  abbrev pub BodyRead : Body → List ℕ → Cursor → Type 0
  BodyRead d rest c =
      (c₂ : Cursor) × (c₃ : Cursor) × (c₄ : Cursor) × (uleb128 s.file c ≡ ok (value d.tag, c₂))
      × (u8 s.file c₂ ≡ ok (d.flag, c₃))
      × (read_attr_specs s (suc (length s.file)) [] c₃ ≡ ok (specs_of d.specs, c₄))
      × (drop c₄.pos s.file ≡ rest)

  pub body_read :
      (d : Body) (rest : List ℕ) (c : Cursor)
      → IsBody d
      → drop c.pos s.file ≡ write_body d rest
      → BodyRead d rest c
  body_read d rest c (tag, specs) e =
      let c₂ : Cursor = advance (suc (length d.tag.others)) c in
      let c₃ : Cursor = advance 1 c₂ in
      let e₂ = behind_leb s.file c.pos d.tag (d.flag ∷ write_specs d.specs rest) e in
      let e₃ = behind_byte s.file c₂.pos d.flag (write_specs d.specs rest) e₂ in
      let (c₄, read, behind) =
        specs_read s d.specs (suc (length s.file)) [] rest c₃ specs e₃
          (omega (arith, specs_fit d.specs rest, ap length e₃, length-drop c₃.pos s.file)) in
      (
        c₂,
        c₃,
        c₄,
        leb_at s.file c d.tag (d.flag ∷ write_specs d.specs rest) tag e,
        byte_at s.file c₂ d.flag (write_specs d.specs rest) e₂,
        read,
        behind,
      )

  entries_read :
      (ds : List Decl) (next : Body) (rest : List ℕ) (fuel : ℕ) (table : AbbrevTable) (c : Cursor)
      → All IsDecl ds
      → IsBody next
      → drop c.pos s.file ≡ write_decls ds (write_body next rest)
      → length ds < fuel
      → read_entries s fuel table c ≡ ok (table_of table ds)
  entries_read ds next rest zero table c valid more e h = absurd (omega arith)
  entries_read [] next rest (suc fuel) table c valid more e h =
      let c₁ : Cursor = advance 1 c in
      let (c₂, c₃, c₄, f, g, k, behind) =
        body_read next rest c₁ more (behind_leb s.file c.pos none_leb (write_body next rest) e) in
      entry_last fuel (value next.tag) next.flag (specs_of next.specs) table c c₁ c₂ c₃ c₄
        (leb_at s.file c none_leb (write_body next rest) none-IsLeb e) f g k
  entries_read ((code, d) ∷ ds) next rest (suc fuel) table c valid more e h =
      let c₁ : Cursor = advance (suc (length code.others)) c in
      let tail = write_decls ds (write_body next rest) in
      let (c₂, c₃, c₄, f, g, k, behind) =
        body_read d tail c₁ valid.0.2 (behind_leb s.file c.pos code (write_body d tail) e) in
      entry_more fuel (value code) (value d.tag) d.flag (specs_of d.specs) table c c₁ c₂ c₃ c₄
        (leb_at s.file c code (write_body d tail) valid.0.0 e) f g k valid.0.1
      ∙ entries_read ds next rest fuel (emplace (value code) (abbrev_of (value code) d) table) c₄
          valid.1 more behind (omega arith)

  -- ParseAbbrevTable at the offset of a table that is written from declarations, whose codes are
  -- not 0, returns those declarations, the first of each code, if the bytes behind the code 0 that
  -- ends the table can be read as a tag, a flag and attributes.
  pub parse_abbrev_table_lem :
      (ds : List Decl) (next : Body) (rest : List ℕ) (offset : ℕ)
      → All IsDecl ds
      → IsBody next
      → drop (s.debug_abbrev.begin + offset) s.file ≡ write_decls ds (write_body next rest)
      → parse_abbrev_table s offset ≡ ok (table_of [] ds)
  unfolding parse_abbrev_table
  parse_abbrev_table_lem ds next rest offset valid more e =
      entries_read ds next rest (suc (length s.file)) []
        (record { pos = s.debug_abbrev.begin + offset; end = span_end s.debug_abbrev }) valid more e
        (omega (
          arith,
          decls_fit ds (write_body next rest),
          ap length e,
          length-drop (s.debug_abbrev.begin + offset) s.file,
        ))
