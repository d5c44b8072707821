-- ===== src/Cli/Frame.antt =====
-- The commands of the command line, on an invariant of the process that looks only at its breakpoint
-- sites: what they share.
pub mod Memory
pub mod Registers
pub mod Points
pub mod Watchpoints
pub mod Catchpoints
pub mod Stops
pub mod Loop
use building_a_debugger.Common.{
  ℕ, Bool, true, false, List, [], ◌∷◌, ltb, ◌==◌, not, ◌&&◌, ◌||◌, if◌then◌else◌, Option, none,
  some, length, get_elem?, ◌^◌, Run, invalid_address_format, invalid_number_of_bytes,
}
use building_a_debugger.Common.Text.{codes, text_eq}
use building_a_debugger.Parse.{to_integral, parse_vector}
use building_a_debugger.Registers.{read_register}
use building_a_debugger.Registers.Table.{RegisterInfo, register_info_by_name, register_infos}
use building_a_debugger.Process.State.{
  Process, Env, Outcome, done, raised, aborted, unspecified, ◌>>=◌, ◌>>◌, pure, raise, lift,
}
use building_a_debugger.Process.Always.{Always}
use building_a_debugger.Process.Memory.{read_memory, write_memory}
use building_a_debugger.Process.Registers.{write_register}
use building_a_debugger.Process.Frame.{
  Framed, Keeps, bind-Keeps, if-Keeps, optional-Keeps, lift-Keeps, write_register-Keeps,
}
use building_a_debugger.Process.Frame.Memory.{read_memory-Keeps, write_memory-Keeps}
use building_a_debugger.Cli.{
  Session, register_value, no_such_register, print, on_process, argument, is_prefix, print_help,
  help_for,
}
use building_a_debugger.Cli.Memory.{
  through_int, memory_lines, address_of, number_of_bytes, handle_memory_read_command,
  handle_memory_write_command, handle_memory_command,
}
use building_a_debugger.Cli.Values.{FloatReader, parse_register_value}
use building_a_debugger.Cli.Registers.{
  catch_all_errors, read_info, is_printed, is_all, print_registers, print_register,
  handle_register_read, write_text, handle_register_write, handle_register_command,
}

-- The invariant, of the process that a session debugs.
abbrev pub OfProcess : {K : Type 0} → (Process K → Type 0) → Session K → Type 0
OfProcess I s = I s.process

module _ {K : Type 0} (I : Process K → Type 0) where
  pub on_process-Keeps :
      {A : Type 0} (m : Process K → Outcome (Process K) A)
      → Keeps I m
      → Keeps (OfProcess I) (on_process m)
  on_process-Keeps m h s i =
      (elim (m s.process)
          as (λ o.
            Always I o
            → Always (OfProcess I) (elim o [
              | done a p ↦ done a (record s { process = p })
              | raised e p ↦ raised e (record s { process = p })
              | aborted ↦ aborted
              | unspecified ↦ unspecified
            ])) [
              | done a q ↦ λ j. j
              | raised e q ↦ λ j. j
              | aborted ↦ λ j. j
              | unspecified ↦ λ j. j
            ])
        (h s.process i)

  pub argument-Keeps : (i : ℕ) (args : List (List ℕ)) → Keeps (OfProcess I) (argument i args)
  argument-Keeps n args s i =
      elim (get_elem? args n)
        as (λ o. Always (OfProcess I) (elim o [ none ↦ unspecified | some a ↦ done a s ])) [
          | none ↦ tt
          | some a ↦ i
        ]

  -- What follows an argument, a result or an operation of the process.
  pub with_argument-Keeps :
      {B : Type 0} (i : ℕ) (args : List (List ℕ)) (f : List ℕ → Session K → Outcome (Session K) B)
      → ((a : List ℕ) → Keeps (OfProcess I) (f a))
      → Keeps (OfProcess I) (argument i args >>= f)
  with_argument-Keeps i args f =
      bind-Keeps (OfProcess I) (argument i args) f (argument-Keeps i args)

  pub with_lift-Keeps :
      {A B : Type 0} (r : Run A) (f : A → Session K → Outcome (Session K) B)
      → ((a : A) → Keeps (OfProcess I) (f a))
      → Keeps (OfProcess I) (lift r >>= f)
  with_lift-Keeps r f = bind-Keeps (OfProcess I) (lift r) f (lift-Keeps (OfProcess I) r)

  pub with_process-Keeps :
      {A B : Type 0} (m : Process K → Outcome (Process K) A)
      (f : A → Session K → Outcome (Session K) B)
      → Keeps I m
      → ((a : A) → Keeps (OfProcess I) (f a))
      → Keeps (OfProcess I) (on_process m >>= f)
  with_process-Keeps m f h = bind-Keeps (OfProcess I) (on_process m) f (on_process-Keeps m h)

  pub print_help-Keeps : (args : List (List ℕ)) → Keeps (OfProcess I) (print_help args)
  unfolding print_help
  print_help-Keeps args =
      if-Keeps (OfProcess I) (length args == 1) _ _ (λ s i. i)
        (with_argument-Keeps 1 args _ λ name s i. i)

  -- Help is printed, and nothing else is done.
  pub help_for-Keeps : (name : List ℕ) → Keeps (OfProcess I) (help_for name)
  unfolding print_help
  help_for-Keeps name s i = i
