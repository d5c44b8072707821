-- ===== src/Cli/Catchpoints.antt =====
-- HandleCatchpointCommand of src/tools/sdb.cpp, and src/syscalls.cpp over the table of
-- src/include/syscalls.inc, which is an argument: a list of names and numbers.
use building_a_debugger.Common.{
  ℕ, Bool, false, List, [], ◌∷◌, ltb, leb, ◌==◌, ◌&&◌, if◌then◌else◌, length, Run, ok, throws,
  no_such_syscall,
}
use building_a_debugger.Common.Int.{ℤ, ◌==ℤ◌}
use building_a_debugger.Common.Text.{codes, text_eq}
use building_a_debugger.Parse.{to_integral_int, value}
use building_a_debugger.Process.State.{
  SyscallCatchPolicy, catch_none, catch_some, catch_all, Outcome, ◌>>=◌, pure, modify, lift,
}
use building_a_debugger.Cli.{Session, argument, is_prefix, split, help_for}

-- SyscallNameToId. The map holds one entry for a name; the first of the table is kept.
unfoldable pub syscall_name_to_id : List (List ℕ × ℤ) → List ℕ → Run ℤ
syscall_name_to_id [] name = throws no_such_syscall
syscall_name_to_id ((other, id) ∷ table) name =
    if text_eq other name then ok id else syscall_name_to_id table name

-- SyscallIdToName
unfoldable pub syscall_id_to_name : List (List ℕ × ℤ) → ℤ → Run (List ℕ)
syscall_id_to_name [] id = throws no_such_syscall
syscall_id_to_name ((name, other) ∷ table) id =
    if other ==ℤ id then ok name else syscall_id_to_name table id

-- `isdigit(syscall[0])`; the first character of an empty text is its end, a zero.
abbrev pub starts_with_digit : List ℕ → Bool
starts_with_digit [] = false
starts_with_digit (c ∷ cs) = leb b'0' c && leb c b'9'

module _ {K : Type 0} (table : List (List ℕ × ℤ)) where
  -- The number of a system call that is given by number or by name.
  unfoldable pub syscall_number : List ℕ → Session K → Outcome (Session K) ℤ
  unfolding syscall_name_to_id
  syscall_number word =
      if starts_with_digit word
      then (lift (to_integral_int 10 word) >>= λ id. lift (value id))
      else lift (syscall_name_to_id table word)

  unfoldable pub syscall_numbers : List (List ℕ) → Session K → Outcome (Session K) (List ℤ)
  unfolding syscall_number
  syscall_numbers [] = pure []
  syscall_numbers (word ∷ words) = do
    id ← syscall_number word
    ids ← syscall_numbers words
    pure (id ∷ ids)

  abbrev pub policy_for : List ℕ → Session K → Outcome (Session K) SyscallCatchPolicy
  policy_for text = syscall_numbers (split text b',') >>= λ ids.
      pure (record { mode = catch_some; to_catch = ids })

  unfoldable pub catch_policy : List (List ℕ) → Session K → Outcome (Session K) SyscallCatchPolicy
  unfolding syscall_numbers
  catch_policy args =
      let named = argument 2 args >>= λ text.
      if length args == 3 && text_eq text (codes "none")
      then pure (record { mode = catch_none; to_catch = [] })
      else policy_for text in
      if leb 3 (length args) then named else pure (record { mode = catch_all; to_catch = [] })

  -- HandleSyscallCatchpointCommand
  unfoldable pub handle_syscall_catchpoint_command :
      List (List ℕ) → Session K → Outcome (Session K) (Unit {0})
  unfolding catch_policy
  handle_syscall_catchpoint_command args = catch_policy args >>= λ policy.
      modify (λ s. record s { process = record s.process { policy = policy } })

  unfoldable pub handle_catchpoint_command :
      List (List ℕ) → Session K → Outcome (Session K) (Unit {0})
  unfolding handle_syscall_catchpoint_command
  handle_catchpoint_command args =
      let dispatch = argument 1 args >>= λ command.
      if is_prefix command (codes "syscall")
      then handle_syscall_catchpoint_command args
      else pure tt in
      if ltb (length args) 2 then help_for (codes "catchpoint") else dispatch
