-- ===== src/Cli/Frame/Catchpoints.antt =====
-- The catchpoint commands, on an invariant of the breakpoint sites.
use building_a_debugger.Common.{ℕ, List, [], ◌∷◌, ltb, leb, ◌==◌, ◌&&◌, length}
use building_a_debugger.Common.Int.{ℤ}
use building_a_debugger.Common.Text.{codes, text_eq}
use building_a_debugger.Parse.{to_integral_int, value}
use building_a_debugger.Process.State.{
  Process, site_point, watch_point, catch_none, catch_all, pure,
}
use building_a_debugger.Process.Frame.{Framed, Keeps, bind-Keeps, if-Keeps, lift-Keeps}
use building_a_debugger.Cli.{is_prefix, split}
use building_a_debugger.Cli.Catchpoints.{
  syscall_name_to_id, starts_with_digit, syscall_number, syscall_numbers, policy_for, catch_policy,
  handle_syscall_catchpoint_command, handle_catchpoint_command,
}
use building_a_debugger.Cli.Frame.{OfProcess, with_argument-Keeps, with_lift-Keeps, help_for-Keeps}

module _ {K : Type 0} (table : List (List ℕ × ℤ)) (I : Process K → Type 0) (framed : Framed I) where
  syscall_number-Keeps : (word : List ℕ) → Keeps (OfProcess I) (syscall_number table word)
  unfolding syscall_number
  syscall_number-Keeps word =
      if-Keeps (OfProcess I) (starts_with_digit word) _ _
        (with_lift-Keeps I (to_integral_int 10 word) _ λ id. lift-Keeps (OfProcess I) (value id))
        (lift-Keeps (OfProcess I) (syscall_name_to_id table word))

  syscall_numbers-Keeps :
      (words : List (List ℕ)) → Keeps (OfProcess I) (syscall_numbers table words)
  unfolding syscall_numbers
  syscall_numbers-Keeps [] s i = i
  syscall_numbers-Keeps (word ∷ words) s i =
      bind-Keeps (OfProcess I) (syscall_number table word) _ (syscall_number-Keeps word)
        (λ id.
          bind-Keeps (OfProcess I) (syscall_numbers table words) (λ ids. pure (id ∷ ids))
            (syscall_numbers-Keeps words) λ ids t j. j)
        s i

  policy_for-Keeps : (text : List ℕ) → Keeps (OfProcess I) (policy_for table text)
  policy_for-Keeps text =
      bind-Keeps (OfProcess I) (syscall_numbers table (split text b',')) _
        (syscall_numbers-Keeps (split text b',')) λ ids s i. i

  catch_policy-Keeps : (args : List (List ℕ)) → Keeps (OfProcess I) (catch_policy table args)
  unfolding catch_policy
  catch_policy-Keeps args =
      if-Keeps (OfProcess I) (leb 3 (length args)) _
        (pure (record { mode = catch_all; to_catch = [] }))
        (with_argument-Keeps I 2 args _ λ text.
          if-Keeps (OfProcess I) (length args == 3 && text_eq text (codes "none"))
            (pure (record { mode = catch_none; to_catch = [] })) _ (λ s i. i)
            (policy_for-Keeps text))
        (λ s i. i)

  pub handle_catchpoint_command-Keeps :
      (args : List (List ℕ)) → Keeps (OfProcess I) (handle_catchpoint_command table args)
  unfolding handle_catchpoint_command handle_syscall_catchpoint_command
  handle_catchpoint_command-Keeps args =
      if-Keeps (OfProcess I) (ltb (length args) 2) _ _ (help_for-Keeps I (codes "catchpoint")) (
        with_argument-Keeps I 1 args _ λ command.
          if-Keeps (OfProcess I) (is_prefix command (codes "syscall")) _ (pure tt)
            (bind-Keeps (OfProcess I) (catch_policy table args) _ (catch_policy-Keeps args)
              λ policy s i. framed.with_policy s.process i policy)
            (λ s i. i))
