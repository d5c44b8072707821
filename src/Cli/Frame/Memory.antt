-- ===== src/Cli/Frame/Memory.antt =====
-- The memory commands, on an invariant of the breakpoint sites.
use building_a_debugger.Common.{
  ℕ, List, ltb, ◌==◌, not, length, ◌^◌, invalid_address_format, invalid_number_of_bytes,
}
use building_a_debugger.Common.Text.{codes}
use building_a_debugger.Parse.{to_integral, parse_vector}
use building_a_debugger.Process.State.{Process, Env, pure, raise}
use building_a_debugger.Process.Memory.{read_memory, write_memory}
use building_a_debugger.Process.Frame.{Framed, Keeps, bind-Keeps, if-Keeps, optional-Keeps}
use building_a_debugger.Process.Frame.Memory.{read_memory-Keeps, write_memory-Keeps}
use building_a_debugger.Cli.{is_prefix}
use building_a_debugger.Cli.Memory.{
  through_int, address_of, number_of_bytes, handle_memory_read_command, handle_memory_write_command,
  handle_memory_command,
}
use building_a_debugger.Cli.Frame.{
  OfProcess, on_process-Keeps, with_argument-Keeps, with_lift-Keeps, with_process-Keeps,
  help_for-Keeps,
}

module _ {K : Type 0} (env : Env K) (I : Process K → Type 0) (framed : Framed I) where
  pub address_of-Keeps : (text : List ℕ) → Keeps (OfProcess I) (address_of env text)
  address_of-Keeps text = with_lift-Keeps I (to_integral (2 ^ 64) 16 text) _ λ address.
      optional-Keeps (OfProcess I) address (raise invalid_address_format) (λ a. pure a) (λ s i. i)
        (λ a s i. i)

  number_of_bytes-Keeps : (args : List (List ℕ)) → Keeps (OfProcess I) (number_of_bytes env args)
  unfolding number_of_bytes
  number_of_bytes-Keeps args =
      if-Keeps (OfProcess I) (length args == 4) _ _
        (with_argument-Keeps I 3 args _ λ text.
          with_lift-Keeps I (to_integral (2 ^ 64) 10 text) _ λ bytes.
            optional-Keeps (OfProcess I) bytes (raise invalid_number_of_bytes)
              (λ n. pure (through_int n)) (λ s i. i) (λ n s i. i))
        (λ s i. i)

  handle_memory_read_command-Keeps :
      (args : List (List ℕ)) → Keeps (OfProcess I) (handle_memory_read_command env args)
  unfolding handle_memory_read_command
  handle_memory_read_command-Keeps args = with_argument-Keeps I 2 args _ λ text.
      bind-Keeps (OfProcess I) (address_of env text) _ (address_of-Keeps text) λ address.
        bind-Keeps (OfProcess I) (number_of_bytes env args) _ (number_of_bytes-Keeps args) λ n.
          with_process-Keeps I (read_memory env address n) _
            (read_memory-Keeps env I framed address n) λ bytes s i. i

  handle_memory_write_command-Keeps :
      (args : List (List ℕ)) → Keeps (OfProcess I) (handle_memory_write_command env args)
  unfolding handle_memory_write_command
  handle_memory_write_command-Keeps args =
      if-Keeps (OfProcess I) (not (length args == 4)) _ _ (help_for-Keeps I (codes "memory")) (
        with_argument-Keeps I 2 args _ λ text.
          bind-Keeps (OfProcess I) (address_of env text) _ (address_of-Keeps text) λ address.
            with_argument-Keeps I 3 args _ λ text'.
              with_lift-Keeps I (parse_vector text') _ λ bytes.
                on_process-Keeps I (write_memory env address bytes)
                  (write_memory-Keeps env I framed address bytes))

  pub handle_memory_command-Keeps :
      (args : List (List ℕ)) → Keeps (OfProcess I) (handle_memory_command env args)
  unfolding handle_memory_command
  handle_memory_command-Keeps args =
      if-Keeps (OfProcess I) (ltb (length args) 3) _ _ (help_for-Keeps I (codes "memory")) (
        with_argument-Keeps I 1 args _ λ command.
          if-Keeps (OfProcess I) (is_prefix command (codes "read")) _ _
            (handle_memory_read_command-Keeps args)
            (if-Keeps (OfProcess I) (is_prefix command (codes "write")) _ _
              (handle_memory_write_command-Keeps args) (help_for-Keeps I (codes "memory"))))
