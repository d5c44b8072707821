-- ===== src/Cli/Stops.antt =====
-- What src/tools/sdb.cpp prints of a stop: HandleStop and what it calls, and
-- HandleDisassembleCommand.
use building_a_debugger.Common.{
  ℕ, ◌^◌, Bool, true, false, List, [], ◌∷◌, ◌==◌, if◌then◌else◌, Option, none, some, map, Run,
  invalid_address_format, invalid_instruction_count,
}
use building_a_debugger.Common.Int.{ℤ, pos}
use building_a_debugger.Common.Text.{codes, text_eq}
use building_a_debugger.Parse.{to_integral}
use building_a_debugger.Stoppoints.{get_by_id, get_by_address}
use building_a_debugger.Elf.{Elf, get_string}
use building_a_debugger.Elf.Symbols.{st_type}
use building_a_debugger.Elf.Translate.{get_symbol_containing_virtual_address}
use building_a_debugger.Disassembler.{Decoder, disassemble}
use building_a_debugger.Process.State.{
  Process, running, stopped, exited, terminated, single_step, software_breakpoint,
  hardware_breakpoint, syscall, unknown, SyscallInformation, syscall_entry, syscall_exit,
  StopReason, site_point, watch_point, Env, Outcome, done, unspecified, ◌>>=◌, ◌>>◌, pure, raise,
  get, lift,
}
use building_a_debugger.Process.Registers.{get_pc}
use building_a_debugger.Process.Hardware.{site_id, watchpoint_id, get_current_hardware_stoppoint}
use building_a_debugger.Process.Sites.{site_at}
use building_a_debugger.Process.Watchpoints.{watchpoint_at}
use building_a_debugger.Process.StopReason.{sigtrap}
use building_a_debugger.Cli.{
  Session, Output, Detail, at_breakpoint, at_watchpoint, single_stepped, entered_syscall,
  left_syscall, has_exited, was_terminated, has_stopped, nothing_said, instruction, on_process,
  print, print_all, help_for,
}
use building_a_debugger.Cli.Catchpoints.{syscall_id_to_name}

abbrev pub stt_func : ℕ
stt_func = 2

-- What the command line is given from outside: the decoder of instructions, the table of system calls
-- and the ELF file of the target, which is loaded.
pub record Tools : Type 0 where
  pub decode : Decoder
  pub syscalls : List (List ℕ × ℤ)
  pub elf : Elf

module _ {K : Type 0} (env : Env K) (tools : Tools) where
  abbrev pub breakpoint_detail : Run ℕ → Process K → Outcome (Process K) Detail
  breakpoint_detail found = lift found >>= λ i. site_at i >>= λ b. pure (at_breakpoint b.id)

  unfoldable pub hardware_detail : Process K → Outcome (Process K) Detail
  hardware_detail = do
    id ← get_current_hardware_stoppoint env
    p ← get
    elim id [
      | site_id s ↦ breakpoint_detail (get_by_id s p.breakpoint_sites)
      | watchpoint_id w ↦ lift (get_by_id w p.watchpoints) >>= λ i. watchpoint_at i >>= λ point.
          pure (at_watchpoint point.id point.previous_data point.current_data)
    ]

  abbrev pub syscall_detail : Option SyscallInformation → Process K → Outcome (Process K) Detail
  syscall_detail none p = unspecified
  syscall_detail (some (syscall_entry id args)) p =
      (lift (syscall_id_to_name tools.syscalls (pos id)) >>= λ name.
      pure (entered_syscall name args))
        p
  syscall_detail (some (syscall_exit id value)) p = done (left_syscall value) p

  -- GetSigtrapInfo. For a trap of another type, or of none, the function ends without a result.
  unfoldable pub get_sigtrap_info : StopReason → Process K → Outcome (Process K) Detail
  unfolding hardware_detail
  get_sigtrap_info reason = elim reason.trap_reason [
    | none ↦ λ p. unspecified
    | some trap ↦ elim trap [
      | software_breakpoint ↦
          get_pc env >>= λ pc. get >>= λ p. breakpoint_detail (get_by_address pc p.breakpoint_sites)
      | hardware_breakpoint ↦ hardware_detail
      | single_step ↦ pure single_stepped
      | syscall ↦ syscall_detail reason.syscall_info
      | unknown ↦ λ p. unspecified
    ]
  ]

  -- The name of the function that the program counter is in.
  unfoldable pub function_name : ℕ → Process K → Outcome (Process K) (Option (List ℕ))
  function_name pc = elim (get_symbol_containing_virtual_address tools.elf pc) [
    | none ↦ pure none
    | some symbol ↦
        if st_type symbol.st_info == stt_func
        then (lift (get_string tools.elf symbol.st_name) >>= λ name. pure (some name))
        else pure none
  ]

  -- GetSignalStopReason
  unfoldable pub get_signal_stop_reason : StopReason → Process K → Outcome (Process K) Output
  unfolding get_sigtrap_info function_name
  get_signal_stop_reason reason = do
    pc ← get_pc env
    name ← function_name pc
    if reason.info == sigtrap
        then (get_sigtrap_info reason >>= λ detail.
            pure (has_stopped reason.info pc name (some detail)))
        else pure (has_stopped reason.info pc name none)

  unfoldable pub print_stop_reason : StopReason → Session K → Outcome (Session K) (Unit {0})
  unfolding get_signal_stop_reason
  print_stop_reason reason = elim reason.reason [
    | exited ↦ print (has_exited reason.info)
    | terminated ↦ print (was_terminated reason.info)
    | stopped ↦ on_process (get_signal_stop_reason reason) >>= print
    | running ↦ print nothing_said
  ]

  unfoldable pub print_disassembly : ℕ → ℕ → Session K → Outcome (Session K) (Unit {0})
  print_disassembly address n = do
    instructions ← on_process (disassemble env tools.decode n (some address))
    print_all (map (λ i. instruction i.address i.text) instructions)

  abbrev pub is_stopped_reason : StopReason → Bool
  is_stopped_reason reason = elim reason.reason [ stopped ↦ true | _ ↦ false ]

  unfoldable pub handle_stop : StopReason → Session K → Outcome (Session K) (Unit {0})
  unfolding print_stop_reason print_disassembly
  handle_stop reason =
      print_stop_reason reason
      >> (if is_stopped_reason reason
          then (on_process (get_pc env) >>= λ pc. print_disassembly pc 5)
          else pure tt)

  -- The options of HandleDisassembleCommand: the address and the number of instructions, or none
  -- where help has been asked for.
  unfoldable pub disassemble_options :
      ℕ → ℕ → List (List ℕ) → Session K → Outcome (Session K) (Option (ℕ × ℕ))
  disassemble_options address n [] = pure (some (address, n))
  disassemble_options address n (option ∷ []) = pure none
  disassemble_options address n (option ∷ text ∷ rest) =
      let with_address = lift (to_integral (2 ^ 64) 16 text) >>= λ parsed. elim parsed [
        | none ↦ raise invalid_address_format
        | some a ↦ disassemble_options a n rest
      ] in
      let with_count = lift (to_integral (2 ^ 64) 10 text) >>= λ parsed. elim parsed [
        | none ↦ raise invalid_instruction_count
        | some count ↦ disassemble_options address count rest
      ] in
      if text_eq option (codes "-a")
      then with_address
      else if text_eq option (codes "-c")
      then with_count
      else pure none

  abbrev pub tail_of : List (List ℕ) → List (List ℕ)
  tail_of [] = []
  tail_of (a ∷ args) = args

  unfoldable pub handle_disassemble_command :
      List (List ℕ) → Session K → Outcome (Session K) (Unit {0})
  unfolding disassemble_options print_disassembly
  handle_disassemble_command args = do
    pc ← on_process (get_pc env)
    options ← disassemble_options pc 5 (tail_of args)
    elim options [
      | none ↦ help_for (codes "disassemble")
      | some (address, n) ↦ print_disassembly address n
    ]
