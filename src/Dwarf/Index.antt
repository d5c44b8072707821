-- ===== src/Dwarf/Index.antt =====
-- Walking the DIE tree: Die::ChildrenRange, Dwarf::Index and the searches over functions and
-- compile units of src/dwarf.cpp. The multimap of functions is a list in the order of insertion.
use building_a_debugger.Common.{
  ℕ, zero, suc, Bool, true, false, ◌&&◌, ◌||◌, List, [], ◌∷◌, ◌++◌, ◌==◌, if◌then◌else◌, Option,
  none, some, Run, ok, undefined, ◌>>=◌,
}
use building_a_debugger.Address.{FileAddress}
use building_a_debugger.Dwarf.Abbrev.{span_end, Sections}
use building_a_debugger.Dwarf.Unit.{CompileUnit}
use building_a_debugger.Dwarf.Entry.{
  Entry, Die, null_die, die, entry, get_next, contains, attr_at, parse_die, get_root, as_reference,
  die_name,
}
use building_a_debugger.Dwarf.Ranges.{contains_address}
use building_a_debugger.Dwarf.Constants.{
  dw_at_low_pc, dw_at_ranges, dw_at_sibling, dw_tag_subprogram, dw_tag_inlined_subroutine,
}

pub record IndexEntry : Type 0 where
  pub unit : CompileUnit
  pub pos : ℕ

abbrev pub FunctionIndex : Type 0
FunctionIndex = List (List ℕ × IndexEntry)

abbrev pub same_name : List ℕ → List ℕ → Bool
same_name [] [] = true
same_name (a ∷ as') (b ∷ bs) = a == b && same_name as' bs
same_name _ _ = false

-- Dwarf::FindFunctions: the keys that match, without the parse.
unfoldable pub equal_range : List ℕ → FunctionIndex → List IndexEntry
equal_range name [] = []
equal_range name ((key, e) ∷ index) =
    if same_name key name then e ∷ equal_range name index else equal_range name index

module _ (s : Sections) (units : List CompileUnit) where
  abbrev pub parse_at : CompileUnit → ℕ → Run Die
  parse_at unit p = parse_die s unit (record { pos = p; end = span_end unit.span })

  -- ChildrenRange::Iterator::operator++ on the DIE that the iterator holds, and its inner loop,
  -- which advances an iterator over the children until it finds the null entry.
  unfoldable mutual
    pub next_die : ℕ → Die → Run Die
    next_die zero d = undefined
    next_die (suc fuel) (null_die next) = ok (null_die next)
    next_die (suc fuel) (die e) =
        let past_children = (parse_at e.unit e.next >>= skip_to_null fuel) >>= λ last.
        parse_at e.unit (get_next last) in
        if e.abbrev_entry.has_children
        then (if contains dw_at_sibling e
            then (attr_at dw_at_sibling e >>= as_reference s units)
            else past_children)
        else parse_at e.unit e.next

    pub skip_to_null : ℕ → Die → Run Die
    skip_to_null zero d = undefined
    skip_to_null (suc fuel) (null_die next) = ok (null_die next)
    skip_to_null (suc fuel) (die e) = next_die fuel (die e) >>= skip_to_null fuel

  -- The range-for over `Children()`, from the DIE that the iterator holds.
  unfoldable pub collect : ℕ → Die → Run (List Entry)
  unfolding next_die
  collect zero d = undefined
  collect (suc fuel) (null_die next) = ok []
  collect (suc fuel) (die e) = do d ← next_die fuel (die e); rest ← collect fuel d; ok (e ∷ rest)

  unfoldable pub children : ℕ → Entry → Run (List Entry)
  unfolding collect
  children fuel e =
      if e.abbrev_entry.has_children then (parse_at e.unit e.next >>= collect fuel) else ok []

  -- Whether IndexDie adds the DIE, if it has a name.
  abbrev pub is_indexed : Entry → Bool
  is_indexed e =
      (contains dw_at_low_pc e || contains dw_at_ranges e)
      && (e.abbrev_entry.tag == dw_tag_subprogram
          || e.abbrev_entry.tag == dw_tag_inlined_subroutine)

  add_function : ℕ → Entry → FunctionIndex → Run FunctionIndex
  add_function fuel e index =
      let named = die_name s fuel units (die e) >>= λ name. elim name [
        | none ↦ ok index
        | some text ↦ ok (index ++ (text, record { unit = e.unit; pos = e.pos }) ∷ [])
      ] in
      if is_indexed e then named else ok index

  -- IndexDie, and its loop over the children.
  unfoldable mutual
    unfolding add_function children

    pub index_die : ℕ → Entry → FunctionIndex → Run FunctionIndex
    index_die zero e index = undefined
    index_die (suc fuel) e index = do
      added ← add_function fuel e index
      cs ← children fuel e
      index_dies fuel cs added

    pub index_dies : ℕ → List Entry → FunctionIndex → Run FunctionIndex
    index_dies zero es index = undefined
    index_dies (suc fuel) [] index = ok index
    index_dies (suc fuel) (e ∷ es) index = index_die fuel e index >>= index_dies fuel es

  index_units : ℕ → List CompileUnit → FunctionIndex → Run FunctionIndex
  unfolding index_die
  index_units fuel [] index = ok index
  index_units fuel (unit ∷ rest) index = do
    root ← get_root s unit
    e ← entry root
    index' ← index_die fuel e index
    index_units fuel rest index'

  -- Dwarf::Index: an index with entries is left as it is.
  unfoldable pub build_index : ℕ → FunctionIndex → Run FunctionIndex
  unfolding index_units
  build_index fuel [] = index_units fuel units []
  build_index fuel (e ∷ index) = ok (e ∷ index)

  search_functions : ℕ → FileAddress → FunctionIndex → Run (Option Entry)
  search_functions elf address [] = ok none
  search_functions elf address ((name, entry') ∷ index) = do
    d ← parse_at entry'.unit entry'.pos
    e ← entry d
    inside ← contains_address s elf address e
    let rest = search_functions elf address index
    if inside && e.abbrev_entry.tag == dw_tag_subprogram then ok (some e) else rest

  -- Dwarf::FunctionContainingAddress, which populates the index first.
  unfoldable pub function_containing_address :
      ℕ → ℕ → FileAddress → FunctionIndex → Run (Option Entry × FunctionIndex)
  unfolding build_index search_functions
  function_containing_address fuel elf address index = do
    index' ← build_index fuel index
    found ← search_functions elf address index'
    ok (found, index')

  parse_entries : List IndexEntry → Run (List Die)
  parse_entries [] = ok []
  parse_entries (e ∷ es) = do d ← parse_at e.unit e.pos; rest ← parse_entries es; ok (d ∷ rest)

  unfoldable pub find_functions : ℕ → List ℕ → FunctionIndex → Run (List Die × FunctionIndex)
  unfolding build_index equal_range parse_entries
  find_functions fuel name index = do
    index' ← build_index fuel index
    found ← parse_entries (equal_range name index')
    ok (found, index')

  -- Dwarf::CompileUnitContainingAddress
  unfoldable pub unit_containing_address :
      ℕ → FileAddress → List CompileUnit → Run (Option CompileUnit)
  unit_containing_address elf address [] = ok none
  unit_containing_address elf address (unit ∷ rest) = do
    root ← get_root s unit
    e ← entry root
    inside ← contains_address s elf address e
    let more = unit_containing_address elf address rest
    if inside then ok (some unit) else more
