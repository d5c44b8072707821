-- ===== src/Dwarf/Abbrev.antt =====
-- Abbreviation tables: ParseAbbrevTable and Dwarf::GetAbbrevTable of src/dwarf.cpp. An
-- unordered_map is an association list in which `emplace` keeps the entry that is there.
pub mod Cache
pub mod Table
pub mod Declarations
pub mod Parse
pub mod Last
use building_a_debugger.Common.{
  ℕ, zero, suc, ◌+◌, Bool, not, List, [], ◌∷◌, ◌++◌, ◌==◌, if◌then◌else◌, length, Option, none,
  some, Run, ok, throws, undefined, ◌>>=◌, out_of_range,
}
use building_a_debugger.Dwarf.Cursor.{Cursor, advance, u8, uleb128}

-- sdb::Span over the mapped file. The empty span of an absent section, {nullptr, 0}, stands at the
-- end of the mapping, where every read is undefined too.
pub record Span : Type 0 where
  pub begin : ℕ
  pub size : ℕ

abbrev pub span_end : Span → ℕ
span_end s = s.begin + s.size

-- The mapping of the file, which ends with its last page, and what `GetSectionContents` returns for the sections that the reader uses.
pub record Sections : Type 0 where
  pub file : List ℕ
  pub debug_info : Span
  pub debug_abbrev : Span
  pub debug_str : Span
  pub debug_ranges : Span

pub record AttrSpec : Type 0 where
  pub attr : ℕ
  pub form : ℕ

pub record Abbrev : Type 0 where
  pub code : ℕ
  pub tag : ℕ
  pub has_children : Bool
  pub attr_specs : List AttrSpec

abbrev pub AbbrevTable : Type 0
AbbrevTable = List (ℕ × Abbrev)

module _ {ℓ} {A : Type ℓ} where
  abbrev pub find_key : ℕ → List (ℕ × A) → Option A
  find_key k [] = none
  find_key k ((j, a) ∷ m) = if j == k then some a else find_key k m

  -- unordered_map::at
  abbrev pub at : ℕ → List (ℕ × A) → Run A
  at k m = elim (find_key k m) [ none ↦ throws out_of_range | some a ↦ ok a ]

  -- unordered_map::emplace
  abbrev pub emplace : ℕ → A → List (ℕ × A) → List (ℕ × A)
  emplace k a m = elim (find_key k m) [ none ↦ m ++ (k, a) ∷ [] | some b ↦ m ]

module _ (s : Sections) where
  -- The inner do-while loop. Each round reads two bytes at least.
  unfoldable pub read_attr_specs : ℕ → List AttrSpec → Cursor → Run (List AttrSpec × Cursor)
  read_attr_specs zero specs c = undefined
  read_attr_specs (suc fuel) specs c = do
    (attr, c₁) ← uleb128 s.file c
    (form, c₂) ← uleb128 s.file c₁
    let more = read_attr_specs fuel (specs ++ record { attr = attr; form = form } ∷ []) c₂
    if attr == 0 then ok (specs, c₂) else more

  -- The outer do-while loop. It reads a whole entry also where the code is 0.
  unfoldable pub read_entries : ℕ → AbbrevTable → Cursor → Run AbbrevTable
  unfolding read_attr_specs
  read_entries zero table c = undefined
  read_entries (suc fuel) table c = do
    (code, c₁) ← uleb128 s.file c
    (tag, c₂) ← uleb128 s.file c₁
    (flag, c₃) ← u8 s.file c₂
    (specs, c₄) ← read_attr_specs (suc (length s.file)) [] c₃
    let entry : Abbrev = record {
      code = code;
      tag = tag;
      has_children = not (flag == 0);
      attr_specs = specs;
    }
    let more = read_entries fuel (emplace code entry table) c₄
    if code == 0 then ok table else more

  unfoldable pub parse_abbrev_table : ℕ → Run AbbrevTable
  unfolding read_entries
  parse_abbrev_table offset =
      let c : Cursor = record { pos = s.debug_abbrev.begin; end = span_end s.debug_abbrev } in
      read_entries (suc (length s.file)) [] (advance offset c)

  -- Dwarf::GetAbbrevTable, with `abbrev_tables_` as the state.
  unfoldable pub get_abbrev_table :
      ℕ → List (ℕ × AbbrevTable) → Run (AbbrevTable × List (ℕ × AbbrevTable))
  get_abbrev_table offset tables = elim (find_key offset tables) [
    | some table ↦ ok (table, tables)
    | none ↦ parse_abbrev_table offset >>= λ table. ok (table, emplace offset table tables)
  ]
