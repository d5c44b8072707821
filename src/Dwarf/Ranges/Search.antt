-- ===== src/Dwarf/Ranges/Search.antt =====
-- RangeList::Contains, line by line.
use building_a_debugger.Common.{
  ℕ, zero, suc, ◌+◌, ◌<◌, ◌≤◌, ◌≡◌, refl, sym, ap, ◌∙◌, true, false, ◌&&◌, List, [], ◌∷◌, ◌++◌,
  arith, ltb, leb, ◌==◌, ==_ne, Bool-cases, inl, inr, length, drop, length-append, length-drop, All,
  none, some, ok, ◌>>=◌,
}
use building_a_debugger.Common.Bytes.{as_bytes}
use building_a_debugger.Address.{add64}
use building_a_debugger.Dwarf.Cursor.{Cursor, advance, u64}
use building_a_debugger.Dwarf.Abbrev.{span_end, Sections}
use building_a_debugger.Dwarf.Ranges.{
  RangeList, RangeIterator, base_address_flag, range_loop, range_next, range_begin, range_any,
  range_list_contains,
}
use building_a_debugger.Dwarf.Cursor.Words.{u64_at, behind}
use building_a_debugger.Dwarf.Ranges.Lines.{
  Line, base, range, encode_all, IsLine, covered, lines_fit,
}

-- The tests that the loop makes of a line.
low_not_flag : (low : ℕ) → low < base_address_flag → low == base_address_flag ≡ false
low_not_flag low h = ==_ne low base_address_flag (omega arith)

module _ (s : Sections) where
  loop_ends :
      (fuel : ℕ) (it : RangeIterator) (c c₁ c₂ : Cursor)
      → u64 s.file c ≡ ok (0, c₁)
      → u64 s.file c₁ ≡ ok (0, c₂)
      → range_loop s (suc fuel) it c
        ≡ ok (record it { pos = none; current = record { low = 0; high = 0 } })
  unfolding range_loop
  loop_ends fuel it c c₁ c₂ e f = rw (◌>>=◌, e, f) refl

  loop_sets :
      (fuel b : ℕ) (it : RangeIterator) (c c₁ c₂ : Cursor)
      → u64 s.file c ≡ ok (base_address_flag, c₁)
      → u64 s.file c₁ ≡ ok (b, c₂)
      → range_loop s (suc fuel) it c
        ≡ range_loop s fuel
            (record it { base_address = b; current = record { low = base_address_flag; high = b } })
            c₂
  unfolding range_loop
  loop_sets fuel b it c c₁ c₂ e f = rw (◌>>=◌, e, f) refl

  loop_stops :
      (fuel low high : ℕ) (it : RangeIterator) (c c₁ c₂ : Cursor)
      → u64 s.file c ≡ ok (low, c₁)
      → u64 s.file c₁ ≡ ok (high, c₂)
      → low == base_address_flag ≡ false
      → (low == 0 && high == 0) ≡ false
      → range_loop s (suc fuel) it c
        ≡ ok (record it {
          pos = some c₂.pos;
          current = record { low = add64 low it.base_address; high = add64 high it.base_address };
        })
  unfolding range_loop
  loop_stops fuel low high it c c₁ c₂ e f g h = rw (◌>>=◌, e, f, g, h) refl

  any_ends :
      (fuel a : ℕ) (it : RangeIterator) → it.pos ≡ none → range_any s (suc fuel) a it ≡ ok false
  unfolding range_any
  any_ends fuel a it e = rw e refl

  -- The iterator behind a range.
  abbrev at_range : ℕ → ℕ → ℕ → RangeIterator → RangeIterator
  at_range p low high it = record it {
    pos = some p;
    current = record { low = add64 low it.base_address; high = add64 high it.base_address };
  }

  any_here :
      (fuel a p low high : ℕ) (it : RangeIterator)
      → (leb (add64 low it.base_address) a && ltb a (add64 high it.base_address)) ≡ true
      → range_any s (suc fuel) a (at_range p low high it) ≡ ok true
  unfolding range_any
  any_here fuel a p low high it e = rw e refl

  any_later :
      (fuel a p low high : ℕ) (it : RangeIterator)
      → (leb (add64 low it.base_address) a && ltb a (add64 high it.base_address)) ≡ false
      → range_any s (suc fuel) a (at_range p low high it) ≡ (
          range_loop s
            (suc (length s.file))
            (at_range p low high it)
            (record { pos = p; end = span_end it.span })
          >>= range_any s fuel a)
  unfolding range_any range_next
  any_later fuel a p low high it e = rw e refl

  covered_here :
      (b low high a : ℕ) (lines : List Line)
      → (leb (add64 low b) a && ltb a (add64 high b)) ≡ true
      → covered b (range low high ∷ lines) a ≡ true
  covered_here b low high a lines e = rw e refl

  covered_later :
      (b low high a : ℕ) (lines : List Line)
      → (leb (add64 low b) a && ltb a (add64 high b)) ≡ false
      → covered b (range low high ∷ lines) a ≡ covered b lines a
  covered_later b low high a lines e = rw e refl

  -- From a line on, the loop and the search behind it.
  loop_lem :
      (lines : List Line) (rest : List ℕ) (fuel more a : ℕ) (it : RangeIterator) (c : Cursor)
      → All IsLine lines
      → drop c.pos s.file ≡ encode_all lines ++ rest
      → length lines < fuel
      → length lines < more
      → length lines ≤ length s.file
      → (range_loop s fuel it c >>= range_any s more a) ≡ ok (covered it.base_address lines a)
  loop_lem lines rest zero more a it c valid e h k l = absurd (omega arith)
  loop_lem lines rest (suc fuel) zero a it c valid e h k l = absurd (omega arith)
  loop_lem [] rest (suc fuel) (suc more) a it c valid e h k l =
      ap (λ r. r >>= range_any s (suc more) a)
        (loop_ends fuel it c (advance 8 c) (advance 8 (advance 8 c))
          (u64_at s.file c 0 (as_bytes 8 0 ++ rest) (omega arith) e)
          (u64_at s.file (advance 8 c) 0 rest (omega arith)
            (behind s.file c.pos 0 (as_bytes 8 0 ++ rest) e)))
      ∙ any_ends more a _ refl
  loop_lem (base b ∷ lines) rest (suc fuel) (suc more) a it c valid e h k l =
      let tail = encode_all lines ++ rest in
      let after_flag = behind s.file c.pos base_address_flag (as_bytes 8 b ++ tail) e in
      ap (λ r. r >>= range_any s (suc more) a)
        (loop_sets fuel b it c (advance 8 c) (advance 8 (advance 8 c))
          (u64_at s.file c base_address_flag (as_bytes 8 b ++ tail) (omega arith) e)
          (u64_at s.file (advance 8 c) b tail valid.0 after_flag))
      ∙ loop_lem lines rest fuel (suc more) a _ (advance 8 (advance 8 c)) valid.1
          (behind s.file (c.pos + 8) b tail after_flag) (omega arith) (omega arith) (omega arith)
  loop_lem (range low high ∷ lines) rest (suc fuel) (suc more) a it c valid e h k l =
      let tail = encode_all lines ++ rest in
      let after_low = behind s.file c.pos low (as_bytes 8 high ++ tail) e in
      let p = c.pos + 8 + 8 in
      ap (λ r. r >>= range_any s (suc more) a)
        (loop_stops fuel low high it c (advance 8 c) (advance 8 (advance 8 c))
          (u64_at s.file c low (as_bytes 8 high ++ tail) (omega (arith, valid.0.0)) e)
          (u64_at s.file (advance 8 c) high tail valid.0.1 after_low) (low_not_flag low valid.0.0)
          valid.0.2)
      ∙ elim (Bool-cases
          (leb (add64 low it.base_address) a && ltb a (add64 high it.base_address))) [
            | inl f ↦
                any_here more a p low high it f
                ∙ ap ok (sym (covered_here it.base_address low high a lines f))
            | inr f ↦
                any_later more a p low high it f
                ∙ loop_lem lines rest (suc (length s.file)) more a (at_range p low high it)
                    (record { pos = p; end = span_end it.span }) valid.1
                    (behind s.file (c.pos + 8) high tail after_low) (omega arith) (omega arith)
                    (omega arith)
                ∙ ap ok (sym (covered_later it.base_address low high a lines f))
          ]

  -- RangeList::Contains of a list that is written in .debug_ranges, with its end, returns whether
  -- the address is in one of the ranges, each relative to the base address in force where it stands.
  pub range_list_contains-covered :
      (lines : List Line) (rest : List ℕ) (r : RangeList) (a : ℕ)
      → All IsLine lines
      → drop r.span.begin s.file ≡ encode_all lines ++ rest
      → range_list_contains s r a ≡ ok (covered r.base_address lines a)
  unfolding range_list_contains range_begin range_next
  range_list_contains-covered lines rest r a valid e =
      loop_lem lines rest (suc (length s.file)) (suc (length s.file)) a
        (record {
          span = r.span;
          base_address = r.base_address;
          pos = some r.span.begin;
          current = record { low = 0; high = 0 };
        })
        (record { pos = r.span.begin; end = span_end r.span }) valid e (omega (arith, few))
        (omega (arith, few)) few
    where
      few : length lines ≤ length s.file
      few = omega (
        arith,
        lines_fit lines,
        length-append (encode_all lines) rest,
        ap length e,
        length-drop r.span.begin s.file,
      )
