-- ===== src/Process/Registers.antt =====
-- Registers::Write, ReadByIdAs and WriteById of a live process, and the requests that fill the
-- copy of the user area (src/registers.cpp, Process::ReadAllRegisters of src/process.cpp).
pub mod Pc
use building_a_debugger.Common.{
  Option, ℕ, zero, suc, ◌+◌, ◌-◌, ◌*◌, ◌^◌, bit_and, leb, if◌then◌else◌, length,
  could_not_write_fprs, could_not_write_user_area, could_not_read_registers,
  could_not_read_debug_register,
}
use building_a_debugger.Common.Bytes.{from_bytes, as_bytes}
use building_a_debugger.Kernel.{bytes_at, write_bytes}
use building_a_debugger.Registers.{Value, read_by_id_as_u64, u64_value, store_register}
use building_a_debugger.Registers.Table.{
  RegisterInfo, RegisterType, register_info_by_id, id_rip, id_dr0,
}
use building_a_debugger.Process.State.{
  Process, Env, Outcome, aborted, ◌>>=◌, ◌>>◌, get, modify, lift, ask, tell, pure,
}

module _ {K : Type 0} (env : Env K) where
  -- The 8 bytes of the user area that are written, those around the register.
  abbrev pub poke_word : RegisterInfo → Process K → K → Option K
  poke_word info p =
      env.kernel.poke_user info.offset
        (from_bytes (bytes_at p.user (bit_and info.offset (2 ^ 64 - 8)) 8))

  -- `WriteFprs` for the x87 area, `WriteUserArea` for the rest.
  unfoldable pub flush_as : RegisterType → RegisterInfo → Process K → Outcome (Process K) (Unit {0})
  flush_as RegisterType.fpr info p = tell (env.kernel.set_fpregs p.user) could_not_write_fprs p
  flush_as _ info p = tell (poke_word info p) could_not_write_user_area p

  unfoldable pub flush_register : RegisterInfo → Process K → Outcome (Process K) (Unit {0})
  unfolding flush_as
  flush_register info p = flush_as info.type info p

  -- Registers::Write
  unfoldable pub write_register : RegisterInfo → Value → Process K → Outcome (Process K) (Unit {0})
  unfolding flush_register
  write_register info v p =
      if leb (length v.bytes) info.size
      then flush_register info (record p { user = store_register env.casts info v p.user })
      else aborted

  unfoldable pub read_by_id : ℕ → Process K → Outcome (Process K) ℕ
  read_by_id id p = lift (read_by_id_as_u64 env.layout id p.user) p

  unfoldable pub write_by_id : ℕ → ℕ → Process K → Outcome (Process K) (Unit {0})
  unfolding write_register
  write_by_id id value = do
    info ← lift (register_info_by_id env.layout id)
    write_register info (u64_value value)

  abbrev pub get_pc : Process K → Outcome (Process K) ℕ
  get_pc = read_by_id id_rip

  abbrev pub set_pc : ℕ → Process K → Outcome (Process K) (Unit {0})
  set_pc = write_by_id id_rip

  -- The loop over the debug registers, from dr_i on.
  unfoldable pub read_debug_registers : ℕ → ℕ → Process K → Outcome (Process K) (Unit {0})
  read_debug_registers zero i = pure tt
  read_debug_registers (suc left) i = do
    info ← lift (register_info_by_id env.layout (id_dr0 + i))
    w ← ask (env.kernel.peek_user info.offset) could_not_read_debug_register
    modify (λ p. record p {
      user = write_bytes p.user (env.layout.debug_registers + 8 * i) (as_bytes 8 w);
    })
    read_debug_registers left (i + 1)

  -- ReadAllRegisters. The kernel fills the two areas of the user structure.
  unfoldable pub read_all_registers : Process K → Outcome (Process K) (Unit {0})
  unfolding read_debug_registers
  read_all_registers = do
    p ← get
    regs ← ask (env.kernel.get_regs p.user) could_not_read_registers
    fpregs ← ask (env.kernel.get_fpregs regs) could_not_read_registers
    modify (λ q. record q { user = fpregs })
    read_debug_registers 8 0
