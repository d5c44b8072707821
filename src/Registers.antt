-- ===== src/Registers.antt =====
-- src/registers.cpp over the table of include/libsdb/detail/registers.inc: reading a register from
-- the copy of the user area, and writing one into it.
pub mod Table
pub mod RoundTrip
use building_a_debugger.Common.{
  ℕ, zero, suc, ◌+◌, ◌-◌, ◌*◌, ◌/◌, ◌%◌, ◌^◌, Bool, true, false, not, ◌&&◌, ◌||◌, List, [], ◌∷◌,
  ◌++◌, ltb, leb, ◌==◌, if◌then◌else◌, length, take, Run, ok, throws, undefined, ◌>>=◌,
  unexpected_register_size, bad_variant_access,
}
use building_a_debugger.Common.Bytes.{from_bytes, as_bytes}
use building_a_debugger.Kernel.{bytes_at, write_bytes}
use Table.{
  RegisterInfo, RegisterFormat, uint, double_float, long_double, vector, Layout,
  register_info_by_id,
}

-- An alternative of Registers::value: how it is read, and its object representation.
pub data Kind : Type 0 where
  unsigned signed floating array : Kind

pub record Value : Type 0 where
  pub kind : Kind
  pub bytes : List ℕ

-- The conversions of a float, double or long double to double and to long double, on object
-- representations. They are the compiler's and the processor's.
pub record FloatCasts : Type 0 where
  pub to_double : List ℕ → List ℕ
  pub to_long_double : List ℕ → List ℕ

-- ToByte128: the bytes of a value, and zeros up to 16.
abbrev pub pad : ℕ → List ℕ → List ℕ
pad zero bs = bs
pad (suc n) [] = 0 ∷ pad n []
pad (suc n) (b ∷ bs) = b ∷ pad n bs

abbrev pub to_byte128 : List ℕ → List ℕ
to_byte128 = pad 16

-- ToByte64
abbrev pub to_byte64 : List ℕ → List ℕ
to_byte64 = pad 8

-- The top bit of the last byte.
abbrev pub is_negative : List ℕ → Bool
is_negative [] = false
is_negative (b ∷ []) = leb 128 b
is_negative (b ∷ c ∷ bs) = is_negative (c ∷ bs)

-- A conversion to a signed integer of n bytes: sign-extended or cut.
extend : ℕ → ℕ → List ℕ → List ℕ
extend fill zero bs = []
extend fill (suc n) [] = fill ∷ extend fill n []
extend fill (suc n) (b ∷ bs) = b ∷ extend fill n bs

unfoldable pub sign_extend : ℕ → List ℕ → List ℕ
unfolding extend
sign_extend n bs = extend (if is_negative bs then 255 else 0) n bs

widen_floating : FloatCasts → RegisterFormat → List ℕ → List ℕ
widen_floating casts uint bs = to_byte128 bs
widen_floating casts double_float bs = to_byte128 (casts.to_double bs)
widen_floating casts long_double bs = to_byte128 (casts.to_long_double bs)
widen_floating casts vector bs = to_byte128 bs

widen_signed : RegisterInfo → List ℕ → List ℕ
unfolding sign_extend
widen_signed info bs = elim info.format [
  | uint ↦
      if info.size == 2
      then to_byte128 (sign_extend 2 bs)
      else if info.size == 4
      then to_byte128 (sign_extend 4 bs)
      else if info.size == 8
      then to_byte128 (sign_extend 8 bs)
      else to_byte128 bs
  | _ ↦ to_byte128 bs
]

-- Widen
unfoldable pub widen : FloatCasts → RegisterInfo → Value → List ℕ
unfolding widen_floating widen_signed
widen casts info v = elim v.kind [
  | unsigned ↦ to_byte128 v.bytes
  | signed ↦ widen_signed info v.bytes
  | floating ↦ widen_floating casts info.format v.bytes
  | array ↦ to_byte128 v.bytes
]

-- The alternative that Registers::Read returns, by format and size.
unfoldable pub read_uint : ℕ → List ℕ → Run Value
read_uint size bytes =
    if size == 1 || size == 2 || size == 4 || size == 8
    then ok (record { kind = unsigned; bytes = bytes })
    else throws unexpected_register_size

unfoldable pub read_register : (ℕ → ℕ) → RegisterInfo → Run Value
unfolding read_uint
read_register user info = elim info.format [
  | uint ↦ read_uint info.size (bytes_at user info.offset info.size)
  | double_float ↦ ok (record { kind = floating; bytes = bytes_at user info.offset 8 })
  | long_double ↦ ok (record { kind = floating; bytes = bytes_at user info.offset 16 })
  | vector ↦ ok (record {
    kind = array;
    bytes = bytes_at user info.offset (if info.size == 8 then 8 else 16);
  })
]

-- std::get<std::uint64_t>
unfoldable pub get_u64 : Value → Run ℕ
get_u64 v = elim v.kind [
  | unsigned ↦ if length v.bytes == 8 then ok (from_bytes v.bytes) else throws bad_variant_access
  | _ ↦ throws bad_variant_access
]

-- ReadByIdAs<std::uint64_t>
unfoldable pub read_by_id_as_u64 : Layout → ℕ → (ℕ → ℕ) → Run ℕ
unfolding read_register get_u64
read_by_id_as_u64 l id user = do
  info ← register_info_by_id l id
  v ← read_register user info
  get_u64 v

-- The std::uint64_t that is written to a register.
abbrev pub u64_value : ℕ → Value
u64_value n = record { kind = unsigned; bytes = as_bytes 8 n }

-- The copy in Registers::Write, where the value is not wider than the register.
unfoldable pub store_register : FloatCasts → RegisterInfo → Value → (ℕ → ℕ) → ℕ → ℕ
unfolding widen
store_register casts info v user =
    write_bytes user info.offset (take info.size (widen casts info v))
