-- ===== src/Dwarf/Abbrev/Cache.antt =====
-- Dwarf::GetAbbrevTable of src/dwarf.cpp against ParseAbbrevTable.
use building_a_debugger.Common.{
  ℕ, ◌≡◌, refl, sym, ap, ◌∙◌, subst, true, false, List, [], ◌∷◌, ◌++◌, ◌==◌, ==→eq, Bool-cases, inl,
  inr, none, some, Option-cases, All, Run, ok, throws, undefined, ◌>>=◌,
}
use building_a_debugger.Dwarf.Abbrev.{
  AbbrevTable, Sections, find_key, emplace, parse_abbrev_table, get_abbrev_table,
}

module _ (s : Sections) where
  -- Every table that is kept is the one that stands at its offset.
  abbrev pub Cached : List (ℕ × AbbrevTable) → Type 0
  Cached tables = All (λ e. parse_abbrev_table s e.0 ≡ ok e.1) tables

  find_key-Cached :
      (offset : ℕ) (tables : List (ℕ × AbbrevTable)) (t : AbbrevTable)
      → Cached tables
      → find_key offset tables ≡ some t
      → parse_abbrev_table s offset ≡ ok t
  find_key-Cached offset [] t h e = cc
  find_key-Cached offset ((j, u) ∷ tables) t h e = elim (Bool-cases (j == offset)) [
    | inl f ↦
        ap (parse_abbrev_table s) (sym (==→eq j offset f))
        ∙ h.0
        ∙ ap ok (some_injective u t (sym (found_here f) ∙ e))
    | inr f ↦ find_key-Cached offset tables t h.1 (sym (found_later f) ∙ e)
  ]
    where
      some_injective : (x y : AbbrevTable) → some x ≡ some y → x ≡ y
      some_injective x y e = cc

      found_here : j == offset ≡ true → find_key offset ((j, u) ∷ tables) ≡ some u
      found_here f = rw f refl

      found_later : j == offset ≡ false → find_key offset ((j, u) ∷ tables) ≡ find_key offset tables
      found_later f = rw f refl

  Cached-append :
      (offset : ℕ) (t : AbbrevTable) (tables : List (ℕ × AbbrevTable))
      → Cached tables
      → parse_abbrev_table s offset ≡ ok t
      → Cached (tables ++ (offset, t) ∷ [])
  Cached-append offset t [] h e = (e, tt)
  Cached-append offset t (k ∷ tables) h e = (h.0, Cached-append offset t tables h.1 e)

  Cached-emplace :
      (offset : ℕ) (t : AbbrevTable) (tables : List (ℕ × AbbrevTable))
      → find_key offset tables ≡ none
      → Cached tables
      → parse_abbrev_table s offset ≡ ok t
      → Cached (emplace offset t tables)
  Cached-emplace offset t tables e h f = subst Cached (sym new) (Cached-append offset t tables h f)
    where
      new : emplace offset t tables ≡ tables ++ (offset, t) ∷ []
      new = rw (emplace, e) refl

  get_kept :
      (offset : ℕ) (t : AbbrevTable) (tables : List (ℕ × AbbrevTable))
      → find_key offset tables ≡ some t
      → get_abbrev_table s offset tables ≡ ok (t, tables)
  unfolding get_abbrev_table
  get_kept offset t tables e = rw (get_abbrev_table, e) refl

  get_parsed :
      (offset : ℕ) (tables : List (ℕ × AbbrevTable))
      → find_key offset tables ≡ none
      → get_abbrev_table s offset tables
        ≡ (parse_abbrev_table s offset >>= λ t. ok (t, emplace offset t tables))
  unfolding get_abbrev_table
  get_parsed offset tables e = rw (get_abbrev_table, e) refl

  -- What GetAbbrevTable answers against what parsing at the offset gives: the same table, with
  -- tables kept that are right, or the same failure.
  abbrev pub Agrees : Run (AbbrevTable × List (ℕ × AbbrevTable)) → Run AbbrevTable → Type 0
  Agrees (ok (t, kept)) parsed = (parsed ≡ ok t) × Cached kept
  Agrees (throws e) parsed = parsed ≡ throws e
  Agrees undefined parsed = parsed ≡ undefined

  Agrees-parsed :
      (offset : ℕ) (tables : List (ℕ × AbbrevTable)) (r : Run AbbrevTable)
      → find_key offset tables ≡ none
      → Cached tables
      → parse_abbrev_table s offset ≡ r
      → Agrees (r >>= λ t. ok (t, emplace offset t tables)) (parse_abbrev_table s offset)
  Agrees-parsed offset tables (ok t) new h e = (e, Cached-emplace offset t tables new h e)
  Agrees-parsed offset tables (throws x) new h e = e
  Agrees-parsed offset tables undefined new h e = e

  -- GetAbbrevTable gives what parsing the table at the offset gives, whichever right tables are
  -- kept: the table, an exception or undefined behaviour; and the tables that it keeps are right.
  pub get_abbrev_table-Agrees :
      (offset : ℕ) (tables : List (ℕ × AbbrevTable))
      → Cached tables
      → Agrees (get_abbrev_table s offset tables) (parse_abbrev_table s offset)
  get_abbrev_table-Agrees offset tables h = elim (Option-cases (find_key offset tables)) [
    | inl e ↦
        rw (get_parsed offset tables e)
          (Agrees-parsed offset tables (parse_abbrev_table s offset) e h refl)
    | inr (t, e) ↦ rw (get_kept offset t tables e) (find_key-Cached offset tables t h e, h)
  ]
