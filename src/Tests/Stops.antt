-- ===== src/Tests/Stops.antt =====
-- Registers and a stop at a breakpoint at concrete inputs.
use building_a_debugger.Common.{false, not, some, ℕ, ◌≡◌, refl, inl, inr, [], ◌∷◌, arith, ok}
use building_a_debugger.Common.Int.{negsuc}
use building_a_debugger.Registers.{Value, unsigned, read_register, store_register}
use building_a_debugger.Registers.Table.{RegisterInfo, RegisterType, RegisterFormat}
use building_a_debugger.Registers.RoundTrip.{read_register-store_register}
use building_a_debugger.Process.State.{
  TrapType, stopped, syscall, StopReason, Process, done, site_point,
}
use building_a_debugger.Process.Registers.{read_all_registers}
use building_a_debugger.Process.Stops.{augment_stop_reason}
use building_a_debugger.Process.StopReason.{plain_reason}
use building_a_debugger.Process.Stops.Breakpoint.{trapped}
use building_a_debugger.Process.Stops.Syscall.{Names, information, augment_stop_reason_lem}
use building_a_debugger.Tests.Machine.{env, trap_env, process, state_of}

abbrev eax : RegisterInfo
eax = record {
  id = 25;
  name = "eax";
  dwarf_id = negsuc 0;
  size = 4;
  offset = 80;
  type = RegisterType.sub_gpr;
  format = RegisterFormat.uint;
}

abbrev word : Value
word = record { kind = unsigned; bytes = 1 ∷ 2 ∷ 3 ∷ 4 ∷ [] }

read_register-store_register_example :
    (read_register (store_register env.casts eax word process.user) eax ≡ ok word)
    × (store_register env.casts eax word process.user 84 ≡ process.user 84)
read_register-store_register_example =
    read_register-store_register env.casts eax word process.user 84 (refl, inl (refl, refl, refl))
      (inr (omega arith))

-- The process with its registers read.
loaded : Process (ℕ → ℕ)
unfolding state_of read_all_registers
loaded = state_of (read_all_registers trap_env (trapped trap_env process.kernel_state process))

abbrev system_call : StopReason
system_call = plain_reason stopped 0x85

abbrev breakpoint : StopReason
breakpoint = plain_reason stopped 5

augment_stop_reason_lem_example :
    (augment_stop_reason env system_call process
      ≡ done
          (record system_call {
            info = 5;
            trap_reason = some syscall;
            syscall_info = some (information env process.expecting_syscall_exit process);
          })
          (record process { expecting_syscall_exit = not process.expecting_syscall_exit }))
    × ((trap : TrapType) × Names 0x80 trap
        × (augment_stop_reason trap_env breakpoint process
            ≡ done
                (record breakpoint { trap_reason = some trap })
                (record process { expecting_syscall_exit = false })))
augment_stop_reason_lem_example = (
  augment_stop_reason_lem env 0 system_call process refl,
  augment_stop_reason_lem trap_env 0x80 breakpoint process refl,
)
