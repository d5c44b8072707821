-- ===== src/Dwarf/Cursor.antt =====
-- class Cursor of src/dwarf.cpp: a position in the mapped ELF file and the end of its data range.
-- Positions are offsets into the file, and a read past the mapping is undefined.
pub mod Words
use building_a_debugger.Common.{
  ℕ, zero, suc, ◌+◌, ◌-◌, ◌*◌, ◌/◌, ◌%◌, ◌^◌, bit_and, bit_or, Bool, true, false, not, ◌&&◌, ◌||◌,
  List, [], ◌∷◌, ltb, leb, ◌==◌, if◌then◌else◌, length, take, drop, Run, ok, throws, undefined,
  ◌>>=◌, unrecognized_form,
}
use building_a_debugger.Common.Bytes.{from_bytes}
use building_a_debugger.Dwarf.Constants.{
  dw_form_addr, dw_form_block, dw_form_block1, dw_form_block2, dw_form_block4, dw_form_data1,
  dw_form_data2, dw_form_data4, dw_form_data8, dw_form_exprloc, dw_form_flag, dw_form_flag_present,
  dw_form_indirect, dw_form_ref1, dw_form_ref2, dw_form_ref4, dw_form_ref_addr, dw_form_ref_udata,
  dw_form_sdata, dw_form_sec_offset, dw_form_string, dw_form_strp, dw_form_udata,
}

-- `data_` is used for its end only.
pub record Cursor : Type 0 where
  pub pos : ℕ
  pub end : ℕ

-- What the loops of `uleb128` and `sleb128` leave in their variables, and the bytes read.
pub record Groups : Type 0 where
  pub result : ℕ
  pub shift : ℕ
  pub byte : ℕ
  pub count : ℕ

-- `operator+=`; `operator++` is the advance by 1.
abbrev pub advance : ℕ → Cursor → Cursor
advance n c = record c { pos = c.pos + n }

-- The do-while loop of both LEB128 readers, over the bytes from the cursor on. A shift by 64 or
-- more is undefined.
unfoldable pub leb_loop : List ℕ → ℕ → ℕ → ℕ → Run Groups
leb_loop [] result shift count = undefined
leb_loop (byte ∷ rest) result shift count =
    let result' = bit_or result (bit_and byte 0x7f * 2 ^ shift % 2 ^ 64) in
    let more = leb_loop rest result' (shift + 7) (count + 1) in
    let last =
      ok (record { result = result'; shift = shift + 7; byte = byte; count = count + 1 }) in
    if leb 64 shift then undefined else if bit_and byte 0x80 == 0 then last else more

-- The sign extension at the end of `sleb128`: bits from `shift` up, if the sign bit is set.
abbrev pub extend_sign : Groups → ℕ
extend_sign g =
    if ltb g.shift 64 && not (bit_and g.byte 0x40 == 0)
    then bit_or g.result (2 ^ 64 - 2 ^ g.shift)
    else g.result

-- The index of the first zero, or the length.
unfoldable pub find_zero : List ℕ → ℕ
find_zero [] = 0
find_zero (b ∷ bs) = if b == 0 then 0 else suc (find_zero bs)

abbrev pub is_finished : Cursor → Bool
is_finished c = leb c.end c.pos

-- `this->pos_ += this->read()`: the read moves the cursor first.
abbrev pub skip_block : (Cursor → Run (ℕ × Cursor)) → Cursor → Run Cursor
skip_block read c = read c >>= λ r. ok (advance r.0 r.1)

-- A read whose result is thrown away.
abbrev pub skip_value : (Cursor → Run (ℕ × Cursor)) → Cursor → Run Cursor
skip_value read c = read c >>= λ r. ok r.1

module _ (file : List ℕ) where
  unfoldable pub fixed_int : ℕ → Cursor → Run (ℕ × Cursor)
  fixed_int n c =
      let bytes = take n (drop c.pos file) in
      if length bytes == n then ok (from_bytes bytes, advance n c) else undefined

  unfoldable pub u8 : Cursor → Run (ℕ × Cursor)
  unfolding fixed_int
  u8 = fixed_int 1

  unfoldable pub u16 : Cursor → Run (ℕ × Cursor)
  unfolding fixed_int
  u16 = fixed_int 2

  unfoldable pub u32 : Cursor → Run (ℕ × Cursor)
  unfolding fixed_int
  u32 = fixed_int 4

  unfoldable pub u64 : Cursor → Run (ℕ × Cursor)
  unfolding fixed_int
  u64 = fixed_int 8

  unfoldable pub uleb128 : Cursor → Run (ℕ × Cursor)
  unfolding leb_loop
  uleb128 c = leb_loop (drop c.pos file) 0 0 0 >>= λ g. ok (g.result, advance g.count c)

  -- An `int64_t`, as its bit pattern.
  unfoldable pub sleb128 : Cursor → Run (ℕ × Cursor)
  unfolding leb_loop
  sleb128 c = leb_loop (drop c.pos file) 0 0 0 >>= λ g. ok (extend_sign g, advance g.count c)

  -- The distance from the position to the first zero byte or to the end of the data.
  unfoldable pub string_length : Cursor → Run ℕ
  unfolding find_zero
  string_length c =
      let region = take (c.end - c.pos) (drop c.pos file) in
      let n = find_zero region in
      if ltb n (length region) || n == c.end - c.pos then ok n else undefined

  unfoldable pub string : Cursor → Run (List ℕ × Cursor)
  unfolding string_length
  string c =
      if leb c.pos c.end
      then (string_length c >>= λ n. ok (take n (drop c.pos file), advance (n + 1) c))
      else undefined

  -- `SkipForm`. An indirect form names its actual form, and each such step reads a byte at least.
  unfoldable pub skip_form_fuel : ℕ → ℕ → Cursor → Run Cursor
  unfolding u8 u16 u32 uleb128 sleb128 string_length
  skip_form_fuel zero form c = undefined
  skip_form_fuel (suc fuel) form c =
      let again = uleb128 c >>= λ r. skip_form_fuel fuel r.0 r.1 in
      if form == dw_form_flag_present
      then ok c
      else if form == dw_form_data1 || form == dw_form_ref1 || form == dw_form_flag
      then ok (advance 1 c)
      else if form == dw_form_data2 || form == dw_form_ref2
      then ok (advance 2 c)
      else if form == dw_form_data4
          || form == dw_form_ref4
          || form == dw_form_ref_addr
          || form == dw_form_sec_offset
          || form == dw_form_strp
      then ok (advance 4 c)
      else if form == dw_form_data8 || form == dw_form_addr
      then ok (advance 8 c)
      else if form == dw_form_sdata
      then skip_value sleb128 c
      else if form == dw_form_udata || form == dw_form_ref_udata
      then skip_value uleb128 c
      else if form == dw_form_block1
      then skip_block u8 c
      else if form == dw_form_block2
      then skip_block u16 c
      else if form == dw_form_block4
      then skip_block u32 c
      else if form == dw_form_block || form == dw_form_exprloc
      then skip_block uleb128 c
      else if form == dw_form_string
      then string_length c >>= (λ n. ok (advance (n + 1) c))
      else if form == dw_form_indirect
      then again
      else throws unrecognized_form

  unfoldable pub skip_form : ℕ → Cursor → Run Cursor
  unfolding skip_form_fuel
  skip_form form c = skip_form_fuel (suc (length file)) form c
