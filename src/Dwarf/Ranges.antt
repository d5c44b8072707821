-- ===== src/Dwarf/Ranges.antt =====
-- Range lists and the address ranges of DIEs: sdb::RangeList, Attr::AsRangeList, Die::LowPc,
-- Die::HighPc and Die::ContainsAddress.
pub mod Lines
pub mod Search
use building_a_debugger.Common.{
  ℕ, zero, suc, ◌+◌, ◌-◌, ◌^◌, Bool, true, false, ◌&&◌, List, [], ◌∷◌, ltb, leb, ◌==◌,
  if◌then◌else◌, Option, none, some, Run, ok, throws, undefined, ◌>>=◌, length, no_low_pc,
  no_high_pc,
}
use building_a_debugger.Address.{add64, FileAddress, same_elf}
use building_a_debugger.Dwarf.Cursor.{Cursor, advance, u64}
use building_a_debugger.Dwarf.Abbrev.{Span, span_end, Sections}
use building_a_debugger.Dwarf.Unit.{CompileUnit}
use building_a_debugger.Dwarf.Entry.{
  Entry, Die, null_die, die, Attr, entry, contains, attr_at, get_root, as_address,
  as_section_offset, as_int,
}
use building_a_debugger.Dwarf.Constants.{dw_at_low_pc, dw_at_high_pc, dw_at_ranges, dw_form_addr}

pub record RangeEntry : Type 0 where
  pub low : ℕ
  pub high : ℕ

-- RangeList::Entry::Contains
abbrev pub entry_contains : ℕ → RangeEntry → Bool
entry_contains address e = leb e.low address && ltb address e.high

pub record RangeList : Type 0 where
  pub span : Span
  pub base_address : ℕ

-- `pos` is none where `pos_` is null: the iterator is the end.
pub record RangeIterator : Type 0 where
  pub span : Span
  pub base_address : ℕ
  pub pos : Option ℕ
  pub current : RangeEntry

abbrev pub base_address_flag : ℕ
base_address_flag = 2 ^ 64 - 1

module _ (s : Sections) where
  -- The loop of `operator++`. Each round reads 16 bytes.
  unfoldable pub range_loop : ℕ → RangeIterator → Cursor → Run RangeIterator
  range_loop zero it c = undefined
  range_loop (suc fuel) it c = do
    (low, c₁) ← u64 s.file c
    (high, c₂) ← u64 s.file c₁
    let more =
        range_loop fuel
          (record it { base_address = high; current = record { low = low; high = high } }) c₂
    if low == base_address_flag
        then more
        else if low == 0 && high == 0
        then ok (record it { pos = none; current = record { low = low; high = high } })
        else ok (record it {
          pos = some c₂.pos;
          current = record { low = add64 low it.base_address; high = add64 high it.base_address };
        })

  unfoldable pub range_next : RangeIterator → Run RangeIterator
  unfolding range_loop
  range_next it = elim it.pos [
    | none ↦ undefined
    | some p ↦ range_loop (suc (length s.file)) it (record { pos = p; end = span_end it.span })
  ]

  -- The constructor, which primes the first element.
  unfoldable pub range_begin : RangeList → Run RangeIterator
  unfolding range_next
  range_begin r = range_next (record {
    span = r.span;
    base_address = r.base_address;
    pos = some r.span.begin;
    current = record { low = 0; high = 0 };
  })

  -- `any_of` from an iterator to the end.
  unfoldable pub range_any : ℕ → ℕ → RangeIterator → Run Bool
  unfolding range_next
  range_any zero address it = undefined
  range_any (suc fuel) address it =
      let more = range_next it >>= range_any fuel address in
      elim it.pos [
        | none ↦ ok false
        | some p ↦ if entry_contains address it.current then ok true else more
      ]

  unfoldable pub range_list_contains : RangeList → ℕ → Run Bool
  unfolding range_begin range_any
  range_list_contains r address = range_begin r >>= range_any (suc (length s.file)) address

  unfoldable pub as_range_list : Attr → Run RangeList
  as_range_list a = do
    offset ← as_section_offset s a
    root ← get_root s a.unit
    e ← entry root
    let begin = s.debug_ranges.begin + offset
    let base = attr_at dw_at_low_pc e >>= as_address s
    base_address ← (if contains dw_at_low_pc e then base else ok 0)
    ok (record {
      span = record { begin = begin; size = span_end s.debug_ranges - begin };
      base_address = base_address;
    })

  unfoldable pub low_pc : Entry → Run ℕ
  unfolding as_range_list range_begin
  low_pc e =
      if contains dw_at_ranges e
      then (attr_at dw_at_ranges e >>= as_range_list >>= range_begin >>= λ it. ok it.current.low)
      else if contains dw_at_low_pc e
      then (attr_at dw_at_low_pc e >>= as_address s)
      else throws no_low_pc

  -- The loop of `HighPc`, which looks one element ahead.
  last_range : ℕ → RangeIterator → Run RangeIterator
  unfolding range_next
  last_range zero it = undefined
  last_range (suc fuel) it =
      range_next it >>= λ it'. elim it'.pos [ none ↦ ok it | some p ↦ last_range fuel it' ]

  unfoldable pub high_pc : Entry → Run ℕ
  unfolding as_range_list range_begin last_range low_pc
  high_pc e =
      if contains dw_at_ranges e
      then (attr_at dw_at_ranges e
          >>= as_range_list
          >>= range_begin
          >>= last_range (suc (length s.file))
          >>= λ it. ok it.current.high)
      else if contains dw_at_high_pc e
      then (attr_at dw_at_high_pc e >>= λ a.
          if a.form == dw_form_addr
          then as_address s a
          else (low_pc e >>= λ low. as_int s a >>= λ size. ok (add64 low size)))
      else throws no_high_pc

  -- The address belongs to the ELF object `elf`, or to another one.
  unfoldable pub contains_address : ℕ → FileAddress → Entry → Run Bool
  unfolding as_range_list range_list_contains low_pc high_pc
  contains_address elf address e =
      if same_elf address.elf (some elf)
      then (if contains dw_at_ranges e
          then (attr_at dw_at_ranges e >>= as_range_list >>= λ r.
              range_list_contains r address.addr)
          else if contains dw_at_low_pc e
          then (low_pc e >>= λ low.
              if leb low address.addr
              then (high_pc e >>= λ high. ok (ltb address.addr high))
              else ok false)
          else ok false)
      else ok false
