-- ===== src/Process/Stops/Breakpoint.antt =====
-- WaitOnSignal where the process has run into an int3 instruction.
use building_a_debugger.Common.{ℕ, false, none, some}
use building_a_debugger.Process.State.{
  stopped, software_breakpoint, StopReason, Process, Env, site_point,
}
use building_a_debugger.Process.StopReason.{sigtrap}

-- The status of a stop by SIGTRAP, and the reason that is made of it.
abbrev pub trap_status : ℕ
trap_status = 0x057f

abbrev pub at_breakpoint : StopReason
at_breakpoint = record {
  reason = stopped;
  info = sigtrap;
  trap_reason = some software_breakpoint;
  syscall_info = none;
}

module _ {K : Type 0} (env : Env K) where
  -- The process after waitpid has returned the status of a trap.
  abbrev pub trapped : K → Process K → Process K
  trapped k p = record p { kernel_state = k; state = stopped }

  -- The process once the kernel's answers are read: a system call's exit is not expected.
  abbrev pub settled : Process K → Process K
  settled q = record q { expecting_syscall_exit = false }
