-- ===== src/Cli/Loop.antt =====
-- HandleCommand and MainLoop of src/tools/sdb.cpp.
use building_a_debugger.Common.{
  ℕ, Bool, true, false, List, [], ◌∷◌, ◌++◌, if◌then◌else◌, Error, out_of_range,
  bad_optional_access, bad_variant_access,
}
use building_a_debugger.Common.Text.{codes}
use building_a_debugger.Process.State.{
  Env, Outcome, done, raised, aborted, unspecified, ◌>>=◌, ◌>>◌, pure,
}
use building_a_debugger.Process.Stops.{resume, wait_on_signal, step_instruction}
use building_a_debugger.Cli.{
  Session, unknown_command, error_text, on_process, print, argument, is_prefix, split, print_help,
}
use building_a_debugger.Cli.Values.{FloatReader}
use building_a_debugger.Cli.Memory.{handle_memory_command}
use building_a_debugger.Cli.Registers.{handle_register_command}
use building_a_debugger.Cli.Sites.{handle_breakpoint_command}
use building_a_debugger.Cli.Watchpoints.{handle_watchpoint_command}
use building_a_debugger.Cli.Catchpoints.{handle_catchpoint_command}
use building_a_debugger.Cli.Stops.{Tools, handle_stop, handle_disassemble_command}

-- Exceptions of the class sdb::Error; the others are the standard library's.
unfoldable pub is_sdb_error : Error → Bool
is_sdb_error out_of_range = false
is_sdb_error bad_optional_access = false
is_sdb_error bad_variant_access = false
is_sdb_error _ = true

module _ {K : Type 0} (env : Env K) (tools : Tools) (floats : FloatReader) (fuel : ℕ) where
  unfoldable pub continue_command : Session K → Outcome (Session K) (Unit {0})
  continue_command = do
    on_process (resume env)
    reason ← on_process (wait_on_signal env fuel)
    handle_stop env tools reason

  unfoldable pub step_command : Session K → Outcome (Session K) (Unit {0})
  step_command = on_process (step_instruction env fuel) >>= handle_stop env tools

  -- The command with a word that is its name or the start of it.
  unfoldable pub dispatch : List ℕ → List (List ℕ) → Session K → Outcome (Session K) (Unit {0})
  unfolding continue_command step_command
  dispatch command args =
      if is_prefix command (codes "continue")
      then continue_command
      else if is_prefix command (codes "memory")
      then handle_memory_command env args
      else if is_prefix command (codes "register")
      then handle_register_command env floats args
      else if is_prefix command (codes "breakpoint")
      then handle_breakpoint_command env args
      else if is_prefix command (codes "watchpoint")
      then handle_watchpoint_command env args
      else if is_prefix command (codes "step")
      then step_command
      else if is_prefix command (codes "help")
      then print_help args
      else if is_prefix command (codes "disassemble")
      then handle_disassemble_command env tools args
      else if is_prefix command (codes "catchpoint")
      then handle_catchpoint_command tools.syscalls args
      else print unknown_command

  unfoldable pub handle_command : List ℕ → Session K → Outcome (Session K) (Unit {0})
  unfolding dispatch
  handle_command line =
      let args = split line b' ' in argument 0 args >>= λ command. dispatch command args

  -- The try block of the loop: another exception than sdb::Error ends the debugger.
  abbrev pub caught : Outcome (Session K) (Unit {0}) → Outcome (Session K) (Unit {0})
  caught (done a s) = done a s
  caught (raised e s) = if is_sdb_error e then print (error_text e) s else aborted
  caught aborted = aborted
  caught unspecified = unspecified

  abbrev pub run_line : List ℕ → Session K → Outcome (Session K) (Unit {0})
  run_line [] s = done tt s
  run_line (c ∷ cs) s = caught (handle_command (c ∷ cs) s)

  abbrev pub last_of : List (List ℕ) → List ℕ
  last_of [] = []
  last_of (line ∷ []) = line
  last_of (line ∷ other ∷ history) = last_of (other ∷ history)

  -- MainLoop over the lines that readline returns, up to the end of the input. An empty line stands
  -- for the last of the history.
  unfoldable pub main_loop :
      List (List ℕ) → List (List ℕ) → Session K → Outcome (Session K) (Unit {0})
  unfolding handle_command
  main_loop [] history = pure tt
  main_loop ([] ∷ lines) history = run_line (last_of history) >> main_loop lines history
  main_loop ((c ∷ cs) ∷ lines) history =
      run_line (c ∷ cs) >> main_loop lines (history ++ (c ∷ cs) ∷ [])
