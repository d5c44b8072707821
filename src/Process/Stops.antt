-- ===== src/Process/Stops.antt =====
-- Running and stopping: AugmentStopReason, WaitOnSignal, MaybeResumeFromSyscall,
-- Resume and StepInstruction of src/process.cpp.
pub mod Status
pub mod Syscall
pub mod Breakpoint
use building_a_debugger.Common.{
  ℕ, zero, suc, ◌/◌, ◌%◌, ◌^◌, Bool, true, false, not, ◌&&◌, List, [], ◌∷◌, ◌==◌, if◌then◌else◌,
  Option, none, some, could_not_single_step, could_not_resume, waitpid_failed, siginfo_failed,
}
use building_a_debugger.Common.Int.{ℤ, pos, ◌==ℤ◌}
use building_a_debugger.Address.{sub64}
use building_a_debugger.Registers.Table.{
  id_rax, id_orig_rax, id_rdi, id_rsi, id_rdx, id_r10, id_r8, id_r9,
}
use building_a_debugger.Stoppoints.{get_by_address, get_by_id, enabled_stop_point_at_address}
use building_a_debugger.Process.State.{
  ProcessState, running, stopped, exited, terminated, TrapType, single_step, software_breakpoint,
  hardware_breakpoint, syscall, unknown, catch_none, catch_some, SyscallInformation, syscall_entry,
  syscall_exit, StopReason, Process, Env, Outcome, done, unspecified, ◌>>=◌, ◌>>◌, get, modify,
  lift, ask, tell, pure, site_point, watch_point,
}
use building_a_debugger.Process.Registers.{read_by_id, get_pc, set_pc, read_all_registers}
use building_a_debugger.Process.Hardware.{site_id, watchpoint_id, get_current_hardware_stoppoint}
use building_a_debugger.Process.Sites.{enable_site, disable_site}
use building_a_debugger.Process.Watchpoints.{update_data}
use building_a_debugger.Process.StopReason.{
  sigtrap, sigtrap_syscall, trap_trace, trap_hwbkpt, si_kernel, is_exit, is_signaled, is_stop,
  plain_reason, stop_reason, trap_of_code, is_caught, syscall_id,
}

module _ {K : Type 0} (env : Env K) where
  -- The registers of the arguments, in the order of the system V ABI.
  unfoldable pub read_arguments : List ℕ → Process K → Outcome (Process K) (List ℕ)
  read_arguments [] = pure []
  read_arguments (id ∷ ids) = do
    value ← read_by_id env id
    rest ← read_arguments ids
    pure (value ∷ rest)

  abbrev argument_registers : List ℕ
  argument_registers = id_rdi ∷ id_rsi ∷ id_rdx ∷ id_r10 ∷ id_r8 ∷ id_r9 ∷ []

  -- The id is kept in 16 bits.
  unfoldable pub syscall_information : Bool → Process K → Outcome (Process K) SyscallInformation
  unfolding read_arguments
  syscall_information true = do
    id ← read_by_id env id_orig_rax
    value ← read_by_id env id_rax
    modify (λ p. record p { expecting_syscall_exit = false })
    pure (syscall_exit (id % 2 ^ 16) value)
  syscall_information false = do
    id ← read_by_id env id_orig_rax
    args ← read_arguments argument_registers
    modify (λ p. record p { expecting_syscall_exit = true })
    pure (syscall_entry (id % 2 ^ 16) args)

  unfoldable pub augment_stop_reason : StopReason → Process K → Outcome (Process K) StopReason
  unfolding syscall_information
  augment_stop_reason reason = do
    code ← ask env.kernel.signal_code siginfo_failed
    p ← get
    let at_syscall = do
      info ← syscall_information p.expecting_syscall_exit
      pure (record reason { info = sigtrap; trap_reason = some syscall; syscall_info = some info })
    let at_other = do
      modify (λ q. record q { expecting_syscall_exit = false })
      pure (record reason {
        trap_reason = some (if reason.info == sigtrap then trap_of_code code else unknown);
      })
    if reason.info == sigtrap_syscall then at_syscall else at_other

  -- Stepping over the breakpoint that the process is stopped at, in Resume.
  unfoldable pub step_over : ℕ → Process K → Outcome (Process K) (Unit {0})
  step_over i = do
    disable_site env i
    tell env.kernel.single_step could_not_single_step
    (status, k) ← ask env.kernel.wait_pid waitpid_failed
    modify (λ p. record p { kernel_state = k })
    enable_site env i

  unfoldable pub resume : Process K → Outcome (Process K) (Unit {0})
  unfolding step_over
  resume = do
    pc ← get_pc env
    p ← get
    (if enabled_stop_point_at_address pc p.breakpoint_sites
        then (lift (get_by_address pc p.breakpoint_sites) >>= step_over)
        else pure tt)
    tell
        (elim p.policy.mode [
          | catch_none ↦ env.kernel.continue_process
          | _ ↦ env.kernel.continue_to_syscall
        ])
        could_not_resume
    modify (λ q. record q { state = running })

  -- The software breakpoint below the program counter, to which it is set back.
  unfoldable pub fix_pc : Process K → Outcome (Process K) (Unit {0})
  fix_pc = do
    pc ← get_pc env
    p ← get
    let begin = sub64 pc 1
    if enabled_stop_point_at_address begin p.breakpoint_sites then set_pc env begin else pure tt

  unfoldable pub update_watchpoint : Process K → Outcome (Process K) (Unit {0})
  update_watchpoint = do
    id ← get_current_hardware_stoppoint env
    elim id [
      | site_id s ↦ pure tt
      | watchpoint_id w ↦ λ p. (lift (get_by_id w p.watchpoints) >>= update_data env) p
    ]

  unfoldable pub is_stopped : ProcessState → Bool
  is_stopped stopped = true
  is_stopped _ = false

  -- Whether a system call that the policy does not name is passed over.
  abbrev pub is_passed_over : StopReason → Process K → Bool
  is_passed_over reason p = elim p.policy.mode [
    | catch_some ↦ elim reason.syscall_info [
      | none ↦ false
      | some info ↦ not (is_caught (syscall_id info) p.policy.to_catch)
    ]
    | _ ↦ false
  ]

  -- WaitOnSignal and MaybeResumeFromSyscall call one another. The fuel bounds the number of system
  -- calls that are passed over in a row, which the traced program decides.
  unfoldable mutual
    unfolding stop_reason augment_stop_reason fix_pc update_watchpoint is_stopped resume

    pub wait_on_signal : ℕ → Process K → Outcome (Process K) StopReason
    wait_on_signal zero p = unspecified
    wait_on_signal (suc fuel) p =
        (do
          (status, k) ← ask env.kernel.wait_pid waitpid_failed
          modify (λ q. record q { kernel_state = k })
          reason ← elim (stop_reason status) [ none ↦ (λ q. unspecified) | some r ↦ pure r ]
          modify (λ q. record q { state = reason.reason })
          q ← get
          if q.is_attached && is_stopped reason.reason
              then stop_handling fuel reason
              else pure reason)
          p

    pub stop_handling : ℕ → StopReason → Process K → Outcome (Process K) StopReason
    stop_handling zero reason p = unspecified
    stop_handling (suc fuel) reason p =
        (do
          read_all_registers env
          r ← augment_stop_reason reason
          if r.info == sigtrap
              then elim r.trap_reason [
                | none ↦ pure r
                | some t ↦ elim t [
                  | software_breakpoint ↦ fix_pc >> pure r
                  | hardware_breakpoint ↦ update_watchpoint >> pure r
                  | syscall ↦ maybe_resume fuel r
                  | _ ↦ pure r
                ]
              ]
              else pure r)
          p

    pub maybe_resume : ℕ → StopReason → Process K → Outcome (Process K) StopReason
    maybe_resume zero reason p = unspecified
    maybe_resume (suc fuel) reason p =
        if is_passed_over reason p then (resume >> wait_on_signal fuel) p else done reason p

  -- StepInstruction
  unfoldable pub step_instruction : ℕ → Process K → Outcome (Process K) StopReason
  unfolding wait_on_signal
  step_instruction fuel = do
    pc ← get_pc env
    p ← get
    let enabled = enabled_stop_point_at_address pc p.breakpoint_sites
    let found = lift (get_by_address pc p.breakpoint_sites)
    (if enabled then (found >>= disable_site env) else pure tt)
    tell env.kernel.single_step could_not_single_step
    reason ← wait_on_signal fuel
    (if enabled then (found >>= enable_site env) else pure tt)
    pure reason
