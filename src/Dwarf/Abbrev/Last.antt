-- ===== src/Dwarf/Abbrev/Last.antt =====
-- ParseAbbrevTable where the table stands at the end of the file.
use mathlib.Core.List.{append_assoc}
use building_a_debugger.Common.{
  ℕ, zero, suc, ◌+◌, ◌<◌, ◌≤◌, ◌≡◌, refl, ap, ◌∙◌, List, [], ◌∷◌, ◌++◌, arith, ltb, ltb→lt,
  ltb_false→le, length, length-drop, drop, zeros, All, Bool-cases, if◌then◌else◌, ok, undefined,
  ◌>>=◌, inl, inr,
}
use building_a_debugger.Mapping.{map_file, page_rest}
use building_a_debugger.Dwarf.Cursor.{Cursor, advance, u8, fixed_int, uleb128, leb_loop}
use building_a_debugger.Dwarf.Abbrev.{
  AttrSpec, AbbrevTable, Sections, span_end, emplace, read_attr_specs, read_entries,
  parse_abbrev_table,
}
use building_a_debugger.Dwarf.Leb.{mark}
use building_a_debugger.Dwarf.Abbrev.Table.{
  Leb, value, Spec, leb_at, behind_leb, byte_at, behind_byte, none_leb, write_leb, write_specs,
  none-IsLeb,
}
use building_a_debugger.Dwarf.Abbrev.Declarations.{
  Body, write_body, Decl, IsDecl, write_decls, abbrev_of, table_of, decls_fit,
}
use building_a_debugger.Dwarf.Abbrev.Parse.{entry_more, body_read, parse_abbrev_table_lem}

write_leb-append :
    (n : Leb) (rest more : List ℕ) → write_leb n rest ++ more ≡ write_leb n (rest ++ more)
write_leb-append n rest more = append_assoc (mark n.first n.others) rest more

write_specs-append :
    (specs : List Spec) (rest more : List ℕ)
    → write_specs specs rest ++ more ≡ write_specs specs (rest ++ more)
write_specs-append [] rest more = refl
write_specs-append (a ∷ specs) rest more =
    write_leb-append a.attr (write_leb a.form (write_specs specs rest)) more
    ∙ ap (write_leb a.attr) (
        write_leb-append a.form (write_specs specs rest) more
        ∙ ap (write_leb a.form) (write_specs-append specs rest more))

write_decls-append :
    (ds : List Decl) (rest more : List ℕ)
    → write_decls ds rest ++ more ≡ write_decls ds (rest ++ more)
write_decls-append [] rest more = refl
write_decls-append ((code, d) ∷ ds) rest more =
    let tail = write_decls ds rest in
    write_leb-append code (write_body d tail) more
    ∙ ap (write_leb code) (
        write_leb-append d.tag (d.flag ∷ write_specs d.specs tail) more
        ∙ ap (λ bs. write_leb d.tag (d.flag ∷ bs))
            (write_specs-append d.specs tail more
              ∙ ap (write_specs d.specs) (write_decls-append ds rest more)))

drop-append_within : (n : ℕ) (xs ys : List ℕ) → n ≤ length xs → drop n (xs ++ ys) ≡ drop n xs ++ ys
drop-append_within zero xs ys h = refl
drop-append_within (suc n) [] ys h = absurd (omega arith)
drop-append_within (suc n) (x ∷ xs) ys h = drop-append_within n xs ys (omega arith)

-- An entry of zeros only.
abbrev none_body : Body
none_body = record { tag = none_leb; flag = 0; specs = [] }

zeros-body : (r : ℕ) → 4 ≤ r → (k : ℕ) × (zeros r ≡ write_body none_body (zeros k))
zeros-body zero h = absurd (omega arith)
zeros-body (suc zero) h = absurd (omega arith)
zeros-body (suc (suc zero)) h = absurd (omega arith)
zeros-body (suc (suc (suc zero))) h = absurd (omega arith)
zeros-body (suc (suc (suc (suc k)))) h = (k, refl)

module _ (s : Sections) where
  leb_cut : (c : Cursor) → drop c.pos s.file ≡ [] → uleb128 s.file c ≡ undefined
  unfolding uleb128 leb_loop
  leb_cut c e = rw e refl

  byte_cut : (c : Cursor) → drop c.pos s.file ≡ [] → u8 s.file c ≡ undefined
  unfolding u8 fixed_int
  byte_cut c e = rw e refl

  specs_cut :
      (fuel r : ℕ) (specs : List AttrSpec) (c : Cursor)
      → r < 2
      → drop c.pos s.file ≡ zeros r
      → read_attr_specs s (suc fuel) specs c ≡ undefined
  unfolding read_attr_specs
  specs_cut fuel zero specs c h e = rw (◌>>=◌, leb_cut c e) refl
  specs_cut fuel (suc zero) specs c h e =
      rw
        (
          ◌>>=◌,
          leb_at s.file c none_leb [] none-IsLeb e,
          leb_cut (advance 1 c) (behind_leb s.file c.pos none_leb [] e),
        )
        refl
  specs_cut fuel (suc (suc r)) specs c h e = absurd (omega arith)

  -- Behind the code 0 there are too few bytes for an entry.
  entry_cut :
      (r fuel : ℕ) (table : AbbrevTable) (c : Cursor)
      → r < 4
      → drop c.pos s.file ≡ 0 ∷ zeros r
      → read_entries s (suc fuel) table c ≡ undefined
  unfolding read_entries
  entry_cut zero fuel table c h e =
      rw
        (
          ◌>>=◌,
          leb_at s.file c none_leb [] none-IsLeb e,
          leb_cut (advance 1 c) (behind_leb s.file c.pos none_leb [] e),
        )
        refl
  entry_cut (suc zero) fuel table c h e =
      let c₁ : Cursor = advance 1 c in
      let e₁ = behind_leb s.file c.pos none_leb (zeros 1) e in
      rw
        (
          ◌>>=◌,
          leb_at s.file c none_leb (zeros 1) none-IsLeb e,
          leb_at s.file c₁ none_leb [] none-IsLeb e₁,
          byte_cut (advance 1 c₁) (behind_leb s.file c₁.pos none_leb [] e₁),
        )
        refl
  entry_cut (suc (suc r)) fuel table c h e =
      let c₁ : Cursor = advance 1 c in
      let c₂ : Cursor = advance 1 c₁ in
      let e₁ = behind_leb s.file c.pos none_leb (zeros (suc (suc r))) e in
      let e₂ = behind_leb s.file c₁.pos none_leb (zeros (suc r)) e₁ in
      rw
        (
          ◌>>=◌,
          leb_at s.file c none_leb (zeros (suc (suc r))) none-IsLeb e,
          leb_at s.file c₁ none_leb (zeros (suc r)) none-IsLeb e₁,
          byte_at s.file c₂ 0 (zeros r) e₂,
          specs_cut (length s.file) r [] (advance 1 c₂) (omega arith)
              (behind_byte s.file c₂.pos 0 (zeros r) e₂),
        )
        refl

  entries_cut :
      (ds : List Decl) (r fuel : ℕ) (table : AbbrevTable) (c : Cursor)
      → r < 4
      → All IsDecl ds
      → drop c.pos s.file ≡ write_decls ds (zeros r)
      → length ds < fuel
      → read_entries s fuel table c ≡ undefined
  entries_cut ds r zero table c few valid e h = absurd (omega arith)
  entries_cut [] r (suc fuel) table c few valid e h = entry_cut r fuel table c few e
  entries_cut ((code, d) ∷ ds) r (suc fuel) table c few valid e h =
      let c₁ : Cursor = advance (suc (length code.others)) c in
      let tail = write_decls ds (zeros r) in
      let (c₂, c₃, c₄, f, g, k, behind) =
        body_read s d tail c₁ valid.0.2 (behind_leb s.file c.pos code (write_body d tail) e) in
      entry_more s fuel (value code) (value d.tag) d.flag _ table c c₁ c₂ c₃ c₄
        (leb_at s.file c code (write_body d tail) valid.0.0 e) f g k valid.0.1
      ∙ entries_cut ds r fuel (emplace (value code) (abbrev_of (value code) d) table) c₄ few valid.1
          behind (omega arith)

  -- Where the code 0 that ends a table, written from declarations whose codes are not 0, is the last
  -- byte of the file, ParseAbbrevTable reads on into the zeros that fill the last page of the mapping:
  -- it returns the declarations, the first of each code, if there are four of them at least, and with
  -- fewer it reads past the mapping.
  pub parse_abbrev_table_last :
      (contents : List ℕ) (ds : List Decl) (offset : ℕ)
      → s.file ≡ map_file contents
      → All IsDecl ds
      → drop (s.debug_abbrev.begin + offset) contents ≡ write_decls ds []
      → if ltb (page_rest contents) 4
        then parse_abbrev_table s offset ≡ undefined
        else parse_abbrev_table s offset ≡ ok (table_of [] ds)
  unfolding parse_abbrev_table map_file
  parse_abbrev_table_last contents ds offset mapped valid e =
      let start = s.debug_abbrev.begin + offset in
      let r = page_rest contents in
      let written : drop start s.file ≡ write_decls ds (zeros r) =
        ap (drop start) mapped
        ∙ drop-append_within start contents (zeros r)
            (omega (arith, length-drop start contents, ap length e, decls_fit ds []))
        ∙ ap (λ bs. bs ++ zeros r) e
        ∙ write_decls-append ds [] (zeros r) in
      elim (Bool-cases (ltb r 4)) [
        | inl few ↦ rw few (
            entries_cut ds r (suc (length s.file)) []
              (record { pos = start; end = span_end s.debug_abbrev }) (ltb→lt r 4 few) valid written
              (omega (arith, decls_fit ds (zeros r), ap length written, length-drop start s.file)))
        | inr enough ↦
            let (k, body) = zeros-body r (ltb_false→le r 4 enough) in
            rw enough (
              parse_abbrev_table_lem s ds none_body (zeros k) offset valid (none-IsLeb, tt)
                (written ∙ ap (write_decls ds) body))
      ]
