-- ===== src/Process/Hardware.antt =====
-- The debug registers: SetHardwareStoppoint, ClearHardwareStoppoint and
-- GetCurrentHardwareStoppoint of src/process.cpp.
pub mod Control
pub mod Clear
pub mod Sites
pub mod Free
use building_a_debugger.Common.{
  ℕ, zero, suc, ◌+◌, ◌-◌, ◌*◌, ◌/◌, ◌%◌, ◌^◌, bit_and, bit_or, Bool, List, [], ◌∷◌, ltb, ◌==◌,
  if◌then◌else◌, Option, none, some, Run, ok, throws, invalid_stoppoint_mode,
  invalid_stoppoint_size, no_free_debug_register, get_elem?,
}
use building_a_debugger.Common.Int.{ℤ}
use building_a_debugger.Registers.Table.{id_dr0, id_dr6, id_dr7}
use building_a_debugger.Stoppoints.{contains_address, get_by_address}
use building_a_debugger.Process.State.{
  StoppointMode, write, read_write, execute, Process, Env, Outcome, done, raised, aborted,
  unspecified, ◌>>=◌, ◌>>◌, get, lift, pure, site_point, watch_point,
}
use building_a_debugger.Process.Registers.{read_by_id, write_by_id}

-- EncodeHardwareStoppointMode
abbrev pub encode_mode : StoppointMode → ℕ
encode_mode write = 0b01
encode_mode read_write = 0b11
encode_mode execute = 0b00

-- EncodeHardwareStoppointSize
unfoldable pub encode_size : ℕ → Run ℕ
encode_size size =
    if size == 1
    then ok 0b00
    else if size == 2
    then ok 0b01
    else if size == 4
    then ok 0b11
    else if size == 8
    then ok 0b10
    else throws invalid_stoppoint_size

-- The loop of FindFreeStoppointRegister from i on, with `left` rounds to go.
unfoldable pub find_free_from : ℕ → ℕ → ℕ → Run ℕ
find_free_from zero i control = throws no_free_debug_register
find_free_from (suc left) i control =
    let rest = find_free_from left (i + 1) control in
    if bit_and control (0b11 * 2 ^ (i * 2)) == 0 then ok i else rest

unfoldable pub find_free_stoppoint_register : ℕ → Run ℕ
unfolding find_free_from
find_free_stoppoint_register control = find_free_from 4 0 control

-- `control & ~mask`, where `mask` is an int: it is complemented in 32 bits, and a negative result
-- is sign-extended to the 64 bits of `control`.
unfoldable pub and_not_int : ℕ → ℕ → ℕ
and_not_int control mask =
    bit_and control (if ltb mask (2 ^ 31) then 2 ^ 64 - 1 - mask else 2 ^ 32 - 1 - mask)

-- The new value of dr7 in SetHardwareStoppoint.
unfoldable pub armed_control : ℕ → ℕ → ℕ → ℕ → ℕ
unfolding and_not_int
armed_control control free_space mode_flag size_flag =
    let enable_bit = 2 ^ (free_space * 2) in
    let mode_bits = mode_flag * 2 ^ (free_space * 4 + 16) in
    let size_bits = size_flag * 2 ^ (free_space * 4 + 18) in
    let clear_mask = bit_or (0b11 * 2 ^ (free_space * 2)) (0b1111 * 2 ^ (free_space * 4 + 16)) in
    bit_or (and_not_int control clear_mask) (bit_or (bit_or enable_bit mode_bits) size_bits)

-- The new value of dr7 in ClearHardwareStoppoint.
unfoldable pub cleared_control : ℕ → ℕ → ℕ
unfolding and_not_int
cleared_control control index =
    let clear_mask = bit_or (0b11 * 2 ^ (index * 2)) (0b1111 * 2 ^ (index + 16)) in
    and_not_int control clear_mask

-- __builtin_ctzll of a number that is not 0 (of 0 it is undefined).
unfoldable pub trailing_zeros : ℕ → ℕ → ℕ
trailing_zeros zero n = 0
trailing_zeros (suc fuel) n =
    let rest = suc (trailing_zeros fuel (n / 2)) in if n % 2 == 0 then rest else 0

-- The variant of a breakpoint site's id or a watchpoint's.
pub data StoppointId : Type 0 where
  site_id : ℤ → StoppointId
  watchpoint_id : ℤ → StoppointId

module _ {K : Type 0} (env : Env K) where
  -- The address register is written before the size is checked.
  unfoldable pub set_hardware_stoppoint : ℕ → StoppointMode → ℕ → Process K → Outcome (Process K) ℕ
  unfolding find_free_stoppoint_register encode_size armed_control
  set_hardware_stoppoint address mode size = do
    control ← read_by_id env id_dr7
    free_space ← lift (find_free_stoppoint_register control)
    write_by_id env (id_dr0 + free_space) address
    size_flag ← lift (encode_size size)
    write_by_id env id_dr7 (armed_control control free_space (encode_mode mode) size_flag)
    pure free_space

  unfoldable pub clear_hardware_stoppoint : ℕ → Process K → Outcome (Process K) (Unit {0})
  unfolding cleared_control
  clear_hardware_stoppoint index = do
    write_by_id env (id_dr0 + index) 0
    control ← read_by_id env id_dr7
    write_by_id env id_dr7 (cleared_control control index)

  -- The id of the member of a collection at a reference.
  unfoldable pub id_at : {A : Type 0} → (A → ℤ) → ℕ → List A → Process K → Outcome (Process K) ℤ
  id_at id i ps q = elim (get_elem? ps i) [ none ↦ unspecified | some a ↦ done (id a) q ]

  unfoldable pub get_current_hardware_stoppoint : Process K → Outcome (Process K) StoppointId
  unfolding trailing_zeros id_at
  get_current_hardware_stoppoint = do
    status ← read_by_id env id_dr6
    index ← (if status == 0 then (λ q. unspecified) else pure (trailing_zeros 64 status))
    address ← read_by_id env (id_dr0 + index)
    p ← get
    let of_site = do
      i ← lift (get_by_address address p.breakpoint_sites)
      id ← id_at (λ b. b.id) i p.breakpoint_sites
      pure (site_id id)
    let of_watchpoint = do
      i ← lift (get_by_address address p.watchpoints)
      id ← id_at (λ w. w.id) i p.watchpoints
      pure (watchpoint_id id)
    if contains_address address p.breakpoint_sites then of_site else of_watchpoint
