-- ===== src/Cli/Frame/Registers.antt =====
-- The register commands, on an invariant of the breakpoint sites.
use building_a_debugger.Common.{ℕ, Bool, List, [], ◌∷◌, ltb, ◌==◌, not, ◌&&◌, ◌||◌, length}
use building_a_debugger.Common.Text.{codes}
use building_a_debugger.Registers.{read_register}
use building_a_debugger.Registers.Table.{RegisterInfo, register_info_by_name, register_infos}
use building_a_debugger.Process.State.{
  Process, Env, Outcome, done, raised, aborted, unspecified, pure,
}
use building_a_debugger.Process.Always.{Always}
use building_a_debugger.Process.Registers.{write_register}
use building_a_debugger.Process.Frame.{
  Framed, Keeps, bind-Keeps, if-Keeps, lift-Keeps, write_register-Keeps,
}
use building_a_debugger.Cli.{Session, no_such_register, print, is_prefix}
use building_a_debugger.Cli.Values.{FloatReader, parse_register_value}
use building_a_debugger.Cli.Registers.{
  catch_all_errors, read_info, is_printed, is_all, print_registers, print_register,
  handle_register_read, write_text, handle_register_write, handle_register_command,
}
use building_a_debugger.Cli.Frame.{
  OfProcess, on_process-Keeps, with_argument-Keeps, with_lift-Keeps, help_for-Keeps,
}

module _ {K : Type 0} (I : Process K → Type 0) where
  catch_all_errors-Keeps :
      (handler : Session K → Outcome (Session K) (Unit {0}))
      (m : Session K → Outcome (Session K) (Unit {0}))
      → Keeps (OfProcess I) handler
      → Keeps (OfProcess I) m
      → Keeps (OfProcess I) (λ s. catch_all_errors handler (m s))
  catch_all_errors-Keeps handler m h k s i = of_outcome (m s) (k s i)
    where
      of_outcome :
          (o : Outcome (Session K) (Unit {0}))
          → Always (OfProcess I) o
          → Always (OfProcess I) (catch_all_errors handler o)
      of_outcome (done a t) j = j
      of_outcome (raised e t) j = h t j
      of_outcome aborted j = tt
      of_outcome unspecified j = tt

module _ {K : Type 0} (env : Env K) (floats : FloatReader) (I : Process K → Type 0)
    (framed : Framed I) where
  read_info-Keeps : (info : RegisterInfo) → Keeps (OfProcess I) (read_info env floats info)
  read_info-Keeps info s i = lift-Keeps (OfProcess I) (read_register s.process.user info) s i

  print_registers-Keeps :
      (all : Bool) (infos : List RegisterInfo)
      → Keeps (OfProcess I) (print_registers env floats all infos)
  unfolding print_registers
  print_registers-Keeps all [] s i = i
  print_registers-Keeps all (info ∷ rest) s i =
      bind-Keeps (OfProcess I) _ (λ u. print_registers env floats all rest)
        (if-Keeps (OfProcess I) (is_printed env floats all info) _ (pure tt)
          (bind-Keeps (OfProcess I) (read_info env floats info) _ (read_info-Keeps info) λ v s i. i)
          (λ s i. i))
        (λ u. print_registers-Keeps all rest) s i

  print_register-Keeps : (name : List ℕ) → Keeps (OfProcess I) (print_register env floats name)
  unfolding print_register
  print_register-Keeps name =
      catch_all_errors-Keeps I (print no_such_register) _ (λ s i. i)
        (with_lift-Keeps I (register_info_by_name env.layout name) _ λ info.
          bind-Keeps (OfProcess I) (read_info env floats info) _ (read_info-Keeps info) λ v s i. i)

  handle_register_read-Keeps :
      (args : List (List ℕ)) → Keeps (OfProcess I) (handle_register_read env floats args)
  unfolding handle_register_read
  handle_register_read-Keeps args =
      if-Keeps (OfProcess I) (length args == 2 || (length args == 3 && is_all env floats args)) _ _
        (print_registers-Keeps (length args == 3) (register_infos env.layout))
        (if-Keeps (OfProcess I) (length args == 3) _ _
          (with_argument-Keeps I 2 args (print_register env floats) print_register-Keeps)
          (help_for-Keeps I (codes "register")))

  write_text-Keeps : (name text : List ℕ) → Keeps (OfProcess I) (write_text env floats name text)
  unfolding write_text
  write_text-Keeps name text = with_lift-Keeps I (register_info_by_name env.layout name) _ λ info.
      with_lift-Keeps I (parse_register_value floats info text) _ λ v.
        on_process-Keeps I (write_register env info v) (write_register-Keeps env I framed info v)

  handle_register_write-Keeps :
      (args : List (List ℕ)) → Keeps (OfProcess I) (handle_register_write env floats args)
  unfolding handle_register_write
  handle_register_write-Keeps args =
      if-Keeps (OfProcess I) (not (length args == 4)) _ _ (help_for-Keeps I (codes "register")) (
        with_argument-Keeps I 2 args _ λ name. with_argument-Keeps I 3 args _ λ text.
          catch_all_errors-Keeps I (pure tt) (write_text env floats name text) (λ s i. i)
            (write_text-Keeps name text))

  pub handle_register_command-Keeps :
      (args : List (List ℕ)) → Keeps (OfProcess I) (handle_register_command env floats args)
  unfolding handle_register_command
  handle_register_command-Keeps args =
      bind-Keeps (OfProcess I) _ _
        (if-Keeps (OfProcess I) (ltb (length args) 2) _ (pure tt)
          (help_for-Keeps I (codes "register")) (λ s i. i))
        λ u. with_argument-Keeps I 1 args _ λ command.
          if-Keeps (OfProcess I) (is_prefix command (codes "read")) _ _
            (handle_register_read-Keeps args)
            (if-Keeps (OfProcess I) (is_prefix command (codes "write")) _ _
              (handle_register_write-Keeps args) (help_for-Keeps I (codes "register")))
