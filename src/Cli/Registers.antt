-- ===== src/Cli/Registers.antt =====
-- HandleRegisterCommand of src/tools/sdb.cpp, with its two subcommands.
use building_a_debugger.Common.{
  ℕ, Bool, true, false, List, [], ◌∷◌, ltb, ◌==◌, not, ◌&&◌, ◌||◌, if◌then◌else◌, none, some,
  length, get_elem?,
}
use building_a_debugger.Common.Text.{codes, text_eq}
use building_a_debugger.Cli.Values.{FloatReader, parse_register_value}
use building_a_debugger.Registers.{Value, read_register}
use building_a_debugger.Registers.Table.{RegisterInfo, gpr, register_infos, register_info_by_name}
use building_a_debugger.Process.State.{
  Env, Outcome, done, raised, aborted, unspecified, ◌>>=◌, ◌>>◌, pure, lift,
}
use building_a_debugger.Process.Registers.{write_register}
use building_a_debugger.Cli.{
  Session, register_value, no_such_register, on_process, print, argument, is_prefix, help_for,
}

-- A handler for every exception, which may print.
abbrev pub catch_all_errors :
    {S : Type 0} → (S → Outcome S (Unit {0})) → Outcome S (Unit {0}) → Outcome S (Unit {0})
catch_all_errors handler (done a s) = done a s
catch_all_errors handler (raised e s) = handler s
catch_all_errors handler aborted = aborted
catch_all_errors handler unspecified = unspecified

module _ {K : Type 0} (env : Env K) (floats : FloatReader) where
  -- Registers::Read on the copy of the user area.
  abbrev pub read_info : RegisterInfo → Session K → Outcome (Session K) Value
  read_info info s = lift (read_register s.process.user info) s

  -- Whether the loop over the table prints a register.
  abbrev pub is_printed : Bool → RegisterInfo → Bool
  is_printed all info =
      (all || elim info.type [ gpr ↦ true | _ ↦ false ])
      && not (text_eq (codes info.name) (codes "orig_rax"))

  unfoldable pub print_registers :
      Bool → List RegisterInfo → Session K → Outcome (Session K) (Unit {0})
  print_registers all [] = pure tt
  print_registers all (info ∷ rest) = do
    (if is_printed all info
        then (read_info info >>= λ v. print (register_value info.name v))
        else pure tt)
    print_registers all rest

  -- The sdb::Error that is caught is one of the two that the block can throw.
  unfoldable pub print_register : List ℕ → Session K → Outcome (Session K) (Unit {0})
  print_register name s = catch_all_errors (print no_such_register) (
      (lift (register_info_by_name env.layout name) >>= λ info.
      read_info info >>= λ v. print (register_value info.name v))
        s)

  abbrev pub is_all : List (List ℕ) → Bool
  is_all args = elim (get_elem? args 2) [ none ↦ false | some a ↦ text_eq a (codes "all") ]

  unfoldable pub handle_register_read : List (List ℕ) → Session K → Outcome (Session K) (Unit {0})
  unfolding print_registers print_register
  handle_register_read args =
      if length args == 2 || (length args == 3 && is_all args)
      then print_registers (length args == 3) (register_infos env.layout)
      else if length args == 3
      then (argument 2 args >>= print_register)
      else help_for (codes "register")

  unfoldable pub write_text : List ℕ → List ℕ → Session K → Outcome (Session K) (Unit {0})
  unfolding parse_register_value
  write_text name text = lift (register_info_by_name env.layout name) >>= λ info.
      lift (parse_register_value floats info text) >>= λ v. on_process (write_register env info v)

  unfoldable pub handle_register_write : List (List ℕ) → Session K → Outcome (Session K) (Unit {0})
  unfolding write_text
  handle_register_write args =
      let write = argument 2 args >>= λ name.
      argument 3 args >>= λ text. λ s. catch_all_errors (pure tt) (write_text name text s) in
      if not (length args == 4) then help_for (codes "register") else write

  -- The help for a line that is too short does not return.
  unfoldable pub handle_register_command :
      List (List ℕ) → Session K → Outcome (Session K) (Unit {0})
  unfolding handle_register_read handle_register_write
  handle_register_command args =
      (if ltb (length args) 2 then help_for (codes "register") else pure tt)
      >> (argument 1 args >>= λ command.
          if is_prefix command (codes "read")
          then handle_register_read args
          else if is_prefix command (codes "write")
          then handle_register_write args
          else help_for (codes "register"))
