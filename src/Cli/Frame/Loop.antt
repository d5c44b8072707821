-- ===== src/Cli/Frame/Loop.antt =====
-- The loop of the command line, on an invariant of the breakpoint sites.
use building_a_debugger.Common.{ℕ, List, [], ◌∷◌, ◌++◌}
use building_a_debugger.Common.Text.{codes}
use building_a_debugger.Process.State.{Process, Env, Outcome, done, raised, aborted, unspecified}
use building_a_debugger.Process.Always.{Always, if-Always}
use building_a_debugger.Process.Stops.{resume, wait_on_signal, step_instruction}
use building_a_debugger.Process.Frame.{Framed, Keeps, bind-Keeps, if-Keeps}
use building_a_debugger.Process.Frame.Stops.{resume-Keeps}
use building_a_debugger.Process.Frame.Waiting.{wait_on_signal-Keeps, step_instruction-Keeps}
use building_a_debugger.Cli.{Session, error_text, print, is_prefix, split}
use building_a_debugger.Cli.Values.{FloatReader}
use building_a_debugger.Cli.Stops.{Tools, handle_stop}
use building_a_debugger.Cli.Loop.{
  is_sdb_error, continue_command, step_command, dispatch, handle_command, caught, run_line, last_of,
  main_loop,
}
use building_a_debugger.Cli.Frame.{
  OfProcess, with_argument-Keeps, with_process-Keeps, print_help-Keeps,
}
use building_a_debugger.Cli.Frame.Memory.{handle_memory_command-Keeps}
use building_a_debugger.Cli.Frame.Registers.{handle_register_command-Keeps}
use building_a_debugger.Cli.Frame.Points.{SiteOperations, handle_breakpoint_command-Keeps}
use building_a_debugger.Cli.Frame.Watchpoints.{handle_watchpoint_command-Keeps}
use building_a_debugger.Cli.Frame.Catchpoints.{handle_catchpoint_command-Keeps}
use building_a_debugger.Cli.Frame.Stops.{handle_stop-Keeps, handle_disassemble_command-Keeps}

module _ {K : Type 0} (env : Env K) (tools : Tools) (floats : FloatReader) (fuel : ℕ)
    (I : Process K → Type 0) (framed : Framed I) (sites : SiteOperations env I) where
  continue_command-Keeps : Keeps (OfProcess I) (continue_command env tools floats fuel)
  unfolding continue_command
  continue_command-Keeps =
      with_process-Keeps I (resume env) _ (resume-Keeps env I framed sites.enables sites.disables)
        λ u.
          with_process-Keeps I (wait_on_signal env fuel) (handle_stop env tools)
            (wait_on_signal-Keeps env I framed sites.enables sites.disables fuel)
            (handle_stop-Keeps env tools I framed)

  step_command-Keeps : Keeps (OfProcess I) (step_command env tools floats fuel)
  unfolding step_command
  step_command-Keeps =
      with_process-Keeps I (step_instruction env fuel) (handle_stop env tools)
        (step_instruction-Keeps env I framed sites.enables sites.disables fuel)
        (handle_stop-Keeps env tools I framed)

  dispatch-Keeps :
      (command : List ℕ) (args : List (List ℕ))
      → Keeps (OfProcess I) (dispatch env tools floats fuel command args)
  unfolding dispatch
  dispatch-Keeps command args =
      if-Keeps (OfProcess I) (is_prefix command (codes "continue")) _ _ continue_command-Keeps (
        if-Keeps (OfProcess I) (is_prefix command (codes "memory")) _ _
          (handle_memory_command-Keeps env I framed args)
          (if-Keeps (OfProcess I) (is_prefix command (codes "register")) _ _
            (handle_register_command-Keeps env floats I framed args)
            (if-Keeps (OfProcess I) (is_prefix command (codes "breakpoint")) _ _
              (handle_breakpoint_command-Keeps env I sites args)
              (if-Keeps (OfProcess I) (is_prefix command (codes "watchpoint")) _ _
                (handle_watchpoint_command-Keeps env I framed args)
                (if-Keeps (OfProcess I) (is_prefix command (codes "step")) _ _ step_command-Keeps (
                  if-Keeps (OfProcess I) (is_prefix command (codes "help")) _ _
                    (print_help-Keeps I args)
                    (if-Keeps (OfProcess I) (is_prefix command (codes "disassemble")) _ _
                      (handle_disassemble_command-Keeps env tools I framed args)
                      (if-Keeps (OfProcess I) (is_prefix command (codes "catchpoint")) _ _
                        (handle_catchpoint_command-Keeps tools.syscalls I framed args)
                        (λ s i. i)))))))))

  handle_command-Keeps :
      (line : List ℕ) → Keeps (OfProcess I) (handle_command env tools floats fuel line)
  unfolding handle_command
  handle_command-Keeps line =
      with_argument-Keeps I 0 (split line b' ') _
        λ command. dispatch-Keeps command (split line b' ')

  caught-Always :
      (o : Outcome (Session K) (Unit {0}))
      → Always (OfProcess I) o
      → Always (OfProcess I) (caught env tools floats fuel o)
  caught-Always (done a s) i = i
  caught-Always (raised e s) i =
      if-Always (OfProcess I) (is_sdb_error e) (print (error_text e) s) aborted i tt
  caught-Always aborted i = tt
  caught-Always unspecified i = tt

  run_line-Keeps : (line : List ℕ) → Keeps (OfProcess I) (run_line env tools floats fuel line)
  run_line-Keeps [] s i = i
  run_line-Keeps (c ∷ cs) s i =
      caught-Always (handle_command env tools floats fuel (c ∷ cs) s)
        (handle_command-Keeps (c ∷ cs) s i)

  pub main_loop-Keeps :
      (lines history : List (List ℕ))
      → Keeps (OfProcess I) (main_loop env tools floats fuel lines history)
  unfolding main_loop
  main_loop-Keeps [] history s i = i
  main_loop-Keeps ([] ∷ lines) history s i =
      let line = last_of env tools floats fuel history in
      bind-Keeps (OfProcess I) (run_line env tools floats fuel line) _ (run_line-Keeps line)
        (λ u. main_loop-Keeps lines history) s i
  main_loop-Keeps ((c ∷ cs) ∷ lines) history s i =
      bind-Keeps (OfProcess I) (run_line env tools floats fuel (c ∷ cs)) _ (run_line-Keeps (c ∷ cs))
        (λ u. main_loop-Keeps lines (history ++ (c ∷ cs) ∷ [])) s i
