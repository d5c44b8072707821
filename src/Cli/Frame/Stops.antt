-- ===== src/Cli/Frame/Stops.antt =====
-- What is printed of a stop, and the command that disassembles, on an invariant of the breakpoint
-- sites.
use building_a_debugger.Common.{
  ℕ, ◌^◌, List, [], ◌∷◌, ◌==◌, Option, none, some, Run, get_elem?, invalid_address_format,
  invalid_instruction_count,
}
use building_a_debugger.Common.Int.{pos}
use building_a_debugger.Common.Text.{codes, text_eq}
use building_a_debugger.Parse.{to_integral}
use building_a_debugger.Stoppoints.{get_by_id, get_by_address}
use building_a_debugger.Registers.Table.{id_rip}
use building_a_debugger.Elf.{get_string}
use building_a_debugger.Elf.Symbols.{st_type}
use building_a_debugger.Elf.Translate.{get_symbol_containing_virtual_address}
use building_a_debugger.Disassembler.{disassemble}
use building_a_debugger.Process.State.{
  Process, ProcessState, running, stopped, exited, terminated, TrapType, single_step,
  software_breakpoint, hardware_breakpoint, syscall, unknown, SyscallInformation, syscall_entry,
  syscall_exit, StopReason, site_point, watch_point, Env, done, unspecified, ◌>>=◌, pure, raise,
  get, lift,
}
use building_a_debugger.Process.Always.{Always}
use building_a_debugger.Process.Registers.{get_pc}
use building_a_debugger.Process.Hardware.{
  StoppointId, site_id, watchpoint_id, get_current_hardware_stoppoint,
}
use building_a_debugger.Process.Sites.{site_at}
use building_a_debugger.Process.Watchpoints.{watchpoint_at}
use building_a_debugger.Process.StopReason.{sigtrap}
use building_a_debugger.Process.Frame.{
  Framed, Keeps, bind-Keeps, if-Keeps, optional-Keeps, lift-Keeps, get-Keeps, read_by_id-Keeps,
}
use building_a_debugger.Process.Frame.Memory.{
  disassemble-Keeps, get_current_hardware_stoppoint-Keeps,
}
use building_a_debugger.Process.Frame.Watchpoints.{watchpoint_at-Keeps}
use building_a_debugger.Cli.{print, help_for, at_watchpoint}
use building_a_debugger.Cli.Catchpoints.{syscall_id_to_name}
use building_a_debugger.Cli.Stops.{
  stt_func, Tools, breakpoint_detail, hardware_detail, syscall_detail, get_sigtrap_info,
  function_name, get_signal_stop_reason, print_stop_reason, print_disassembly, is_stopped_reason,
  handle_stop, disassemble_options, tail_of, handle_disassemble_command,
}
use building_a_debugger.Cli.Frame.{OfProcess, with_lift-Keeps, with_process-Keeps, help_for-Keeps}

module _ {K : Type 0} (env : Env K) (tools : Tools) (I : Process K → Type 0)
    (framed : Framed I) where
  site_at-Keeps : (i : ℕ) → Keeps I (site_at i)
  unfolding site_at
  site_at-Keeps n p i =
      elim (get_elem? p.breakpoint_sites n)
        as (λ o. Always I (elim o [ none ↦ unspecified | some b ↦ done b p ])) [
          | none ↦ tt
          | some b ↦ i
        ]

  breakpoint_detail-Keeps : (found : Run ℕ) → Keeps I (breakpoint_detail env tools found)
  breakpoint_detail-Keeps found =
      bind-Keeps I (lift found) _ (lift-Keeps I found)
        λ n. bind-Keeps I (site_at n) _ (site_at-Keeps n) λ b p i. i

  hardware_detail-Keeps : Keeps I (hardware_detail env tools)
  unfolding hardware_detail
  hardware_detail-Keeps =
      bind-Keeps I (get_current_hardware_stoppoint env) _
        (get_current_hardware_stoppoint-Keeps env I framed)
        λ id. bind-Keeps I get _ (get-Keeps I) λ p. of_id p id
    where
      of_id :
          (p : Process K) (id : StoppointId)
          → Keeps I (elim id [
            | site_id s ↦ breakpoint_detail env tools (get_by_id s p.breakpoint_sites)
            | watchpoint_id w ↦ lift (get_by_id w p.watchpoints) >>= λ i.
                watchpoint_at i >>= λ point.
                pure (at_watchpoint point.id point.previous_data point.current_data)
          ])
      of_id p (site_id s) q j = breakpoint_detail-Keeps (get_by_id s p.breakpoint_sites) q j
      of_id p (watchpoint_id w) q j =
          bind-Keeps I (lift (get_by_id w p.watchpoints)) _
            (lift-Keeps I (get_by_id w p.watchpoints))
            (λ n. bind-Keeps I (watchpoint_at n) _ (watchpoint_at-Keeps env I framed n) λ w r k. k)
            q j

  syscall_detail-Keeps : (o : Option SyscallInformation) → Keeps I (syscall_detail env tools o)
  syscall_detail-Keeps none p i = tt
  syscall_detail-Keeps (some (syscall_entry id args)) p i =
      bind-Keeps I (lift (syscall_id_to_name tools.syscalls (pos id))) _
        (lift-Keeps I (syscall_id_to_name tools.syscalls (pos id))) (λ name q j. j) p i
  syscall_detail-Keeps (some (syscall_exit id value)) p i = i

  get_sigtrap_info-Keeps : (reason : StopReason) → Keeps I (get_sigtrap_info env tools reason)
  unfolding get_sigtrap_info
  get_sigtrap_info-Keeps reason = of_trap reason.trap_reason
    where
      of_trap :
          (trap : Option TrapType)
          → Keeps I (get_sigtrap_info env tools (record reason { trap_reason = trap }))
      of_trap none p i = tt
      of_trap (some software_breakpoint) p i =
          bind-Keeps I (get_pc env) _ (read_by_id-Keeps env I framed id_rip)
            (λ pc.
              bind-Keeps I get _ (get-Keeps I)
                λ q. breakpoint_detail-Keeps (get_by_address pc q.breakpoint_sites))
            p i
      of_trap (some hardware_breakpoint) p i = hardware_detail-Keeps p i
      of_trap (some single_step) p i = i
      of_trap (some syscall) p i = syscall_detail-Keeps reason.syscall_info p i
      of_trap (some unknown) p i = tt

  function_name-Keeps : (pc : ℕ) → Keeps I (function_name env tools pc)
  unfolding function_name
  function_name-Keeps pc =
      optional-Keeps I (get_symbol_containing_virtual_address tools.elf pc) (pure none) _ (λ p i. i)
        λ symbol.
          if-Keeps I (st_type symbol.st_info == stt_func) _ (pure none)
            (bind-Keeps I (lift (get_string tools.elf symbol.st_name)) (λ name. pure (some name))
              (lift-Keeps I (get_string tools.elf symbol.st_name)) λ name p i. i)
            (λ p i. i)

  get_signal_stop_reason-Keeps :
      (reason : StopReason) → Keeps I (get_signal_stop_reason env tools reason)
  unfolding get_signal_stop_reason
  get_signal_stop_reason-Keeps reason =
      bind-Keeps I (get_pc env) _ (read_by_id-Keeps env I framed id_rip) λ pc.
        bind-Keeps I (function_name env tools pc) _ (function_name-Keeps pc) λ name.
          if-Keeps I (reason.info == sigtrap) _ _
            (bind-Keeps I (get_sigtrap_info env tools reason) _ (get_sigtrap_info-Keeps reason)
              λ detail p i. i)
            (λ p i. i)

  print_stop_reason-Keeps :
      (reason : StopReason) → Keeps (OfProcess I) (print_stop_reason env tools reason)
  unfolding print_stop_reason
  print_stop_reason-Keeps reason = of_state reason.reason
    where
      of_state :
          (state : ProcessState)
          → Keeps (OfProcess I) (print_stop_reason env tools (record reason { reason = state }))
      of_state exited s i = i
      of_state terminated s i = i
      of_state stopped s i =
          with_process-Keeps I _ print
            (get_signal_stop_reason-Keeps (record reason { reason = stopped })) (λ o t j. j) s i
      of_state running s i = i

  print_disassembly-Keeps :
      (address n : ℕ) → Keeps (OfProcess I) (print_disassembly env tools address n)
  unfolding print_disassembly
  print_disassembly-Keeps address n =
      with_process-Keeps I (disassemble env tools.decode n (some address)) _
        (disassemble-Keeps env I framed tools.decode n (some address)) λ instructions s i. i

  pub handle_stop-Keeps : (reason : StopReason) → Keeps (OfProcess I) (handle_stop env tools reason)
  unfolding handle_stop
  handle_stop-Keeps reason =
      bind-Keeps (OfProcess I) (print_stop_reason env tools reason) _
        (print_stop_reason-Keeps reason)
        λ u.
          if-Keeps (OfProcess I) (is_stopped_reason env tools reason) _ (pure tt)
            (with_process-Keeps I (get_pc env) _ (read_by_id-Keeps env I framed id_rip)
              λ pc. print_disassembly-Keeps pc 5)
            (λ s i. i)

  disassemble_options-Keeps :
      (address n : ℕ) (args : List (List ℕ))
      → Keeps (OfProcess I) (disassemble_options env tools address n args)
  unfolding disassemble_options
  disassemble_options-Keeps address n [] s i = i
  disassemble_options-Keeps address n (option ∷ []) s i = i
  disassemble_options-Keeps address n (option ∷ text ∷ rest) s i =
      if-Keeps (OfProcess I) (text_eq option (codes "-a")) _ _
        (with_lift-Keeps I (to_integral (2 ^ 64) 16 text) _ λ parsed.
          optional-Keeps (OfProcess I) parsed (raise invalid_address_format) _ (λ t j. j)
            λ a. disassemble_options-Keeps a n rest)
        (if-Keeps (OfProcess I) (text_eq option (codes "-c")) _ (pure none)
          (with_lift-Keeps I (to_integral (2 ^ 64) 10 text) _ λ parsed.
            optional-Keeps (OfProcess I) parsed (raise invalid_instruction_count) _ (λ t j. j)
              λ count. disassemble_options-Keeps address count rest)
          (λ t j. j))
        s i

  pub handle_disassemble_command-Keeps :
      (args : List (List ℕ)) → Keeps (OfProcess I) (handle_disassemble_command env tools args)
  unfolding handle_disassemble_command
  handle_disassemble_command-Keeps args =
      with_process-Keeps I (get_pc env) _ (read_by_id-Keeps env I framed id_rip) λ pc.
        bind-Keeps (OfProcess I) (disassemble_options env tools pc 5 (tail_of env tools args)) _
          (disassemble_options-Keeps pc 5 (tail_of env tools args))
          λ options.
            optional-Keeps (OfProcess I) options (help_for (codes "disassemble")) _
              (help_for-Keeps I (codes "disassemble"))
              λ (address, n). print_disassembly-Keeps address n
