-- ===== src/Process/StopReason.antt =====
-- StopReason of src/process.cpp: the status of a wait, and the codes of traps.
use building_a_debugger.Common.{
  ℕ, ◌/◌, ◌%◌, Bool, true, false, not, ◌&&◌, List, [], ◌∷◌, ◌==◌, if◌then◌else◌, Option, none, some,
}
use building_a_debugger.Common.Int.{ℤ, pos, ◌==ℤ◌}
use building_a_debugger.Process.State.{
  ProcessState, stopped, exited, terminated, TrapType, single_step, software_breakpoint,
  hardware_breakpoint, unknown, SyscallInformation, syscall_entry, syscall_exit, StopReason,
  site_point, watch_point,
}

-- Numbers of <signal.h>.
abbrev pub sigtrap : ℕ
sigtrap = 5

abbrev pub sigtrap_syscall : ℕ
sigtrap_syscall = 0x85

abbrev pub trap_trace : ℕ
trap_trace = 2

abbrev pub trap_hwbkpt : ℕ
trap_hwbkpt = 4

abbrev pub si_kernel : ℕ
si_kernel = 0x80

-- WIFEXITED, WIFSIGNALED and WIFSTOPPED of <sys/wait.h>, on the status as an unsigned number.
abbrev pub is_exit : ℕ → Bool
is_exit status = status % 128 == 0

abbrev pub is_signaled : ℕ → Bool
is_signaled status = not (status % 128 == 0) && not (status % 128 == 127)

abbrev pub is_stop : ℕ → Bool
is_stop status = status % 256 == 127

abbrev pub plain_reason : ProcessState → ℕ → StopReason
plain_reason state info = record {
  reason = state;
  info = info;
  trap_reason = none;
  syscall_info = none;
}

-- The constructor of StopReason. A status of another kind leaves the members unset.
unfoldable pub stop_reason : ℕ → Option StopReason
stop_reason status =
    if is_exit status
    then some (plain_reason exited (status / 256 % 256))
    else if is_signaled status
    then some (plain_reason terminated (status % 128))
    else if is_stop status
    then some (plain_reason stopped (status / 256 % 256))
    else none

-- The switch over si_code.
abbrev pub trap_of_code : ℕ → TrapType
trap_of_code code =
    if code == trap_trace
    then single_step
    else if code == si_kernel
    then software_breakpoint
    else if code == trap_hwbkpt
    then hardware_breakpoint
    else unknown

-- std::find over the system calls to catch.
unfoldable pub is_caught : ℕ → List ℤ → Bool
is_caught id [] = false
is_caught id (c ∷ cs) = if c ==ℤ pos id then true else is_caught id cs

abbrev pub syscall_id : SyscallInformation → ℕ
syscall_id (syscall_entry id args) = id
syscall_id (syscall_exit id value) = id
