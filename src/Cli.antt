-- ===== src/Cli.antt =====
-- src/tools/sdb.cpp, the command line: its texts, its state and what it prints.
pub mod Words
pub mod Memory
pub mod Values
pub mod Registers
pub mod Sites
pub mod Watchpoints
pub mod Catchpoints
pub mod Stops
pub mod Loop
pub mod Vectors
pub mod Faults
pub mod Frame
pub mod Invariant
use Prim.Native.String.{String}
use building_a_debugger.Common.{
  ℕ, zero, suc, Bool, true, false, ◌&&◌, List, [], ◌∷◌, ◌++◌, ◌==◌, if◌then◌else◌, Option, none,
  some, length, get_elem?, Error,
}
use building_a_debugger.Common.Int.{ℤ}
use building_a_debugger.Common.Text.{codes}
use building_a_debugger.Registers.{Value}
use building_a_debugger.Process.State.{
  Process, StoppointMode, Outcome, done, raised, aborted, unspecified, ◌>>=◌, ◌>>◌, pure, modify,
}

-- IsPrefix
unfoldable pub is_prefix : List ℕ → List ℕ → Bool
is_prefix [] name = true
is_prefix (c ∷ cs) [] = false
is_prefix (c ∷ cs) (d ∷ ds) = c == d && is_prefix cs ds

-- What std::getline leaves behind the last delimiter is an item if it is not empty.
abbrev pub last_item : List ℕ → List (List ℕ)
last_item [] = []
last_item (c ∷ cs) = (c ∷ cs) ∷ []

-- Split, with the characters of the item that is being read.
unfoldable pub split_from : ℕ → List ℕ → List ℕ → List (List ℕ)
split_from delimiter item [] = last_item item
split_from delimiter item (c ∷ cs) =
    let next = item ∷ split_from delimiter [] cs in
    let more = split_from delimiter (item ++ c ∷ []) cs in if c == delimiter then next else more

unfoldable pub split : List ℕ → ℕ → List (List ℕ)
unfolding split_from
split text delimiter = split_from delimiter [] text

-- The texts of PrintHelp.
pub data Topic : Type 0 where
  overview of_memory of_breakpoint of_register of_disassemble of_watchpoint of_catchpoint : Topic

-- What GetSigtrapInfo says of a trap: a breakpoint, a watchpoint with its old and new data, a single
-- step, a system call's name and arguments, or what it returned.
pub data Detail : Type 0 where
  at_breakpoint : ℤ → Detail
  at_watchpoint : ℤ → ℕ → ℕ → Detail
  single_stepped : Detail
  entered_syscall : List ℕ → List ℕ → Detail
  left_syscall : ℕ → Detail

-- What is printed: the values that the source formats.
pub data Output : Type 0 where
  help : Topic → Output
  no_help : List ℕ → Output
  register_value : String → Value → Output
  no_such_register : Output
  memory_line : ℕ → List ℕ → Output
  no_breakpoints breakpoints_follow : Output
  breakpoint_line : ℤ → ℕ → Bool → Output
  expects_address expects_breakpoint_id expects_watchpoint_id : Output
  no_watchpoints watchpoints_follow : Output
  watchpoint_line : ℤ → ℕ → StoppointMode → ℕ → Bool → Output
  has_exited : ℕ → Output
  was_terminated : ℕ → Output
  has_stopped : ℕ → ℕ → Option (List ℕ) → Option Detail → Output
  nothing_said : Output
  instruction : ℕ → List ℕ → Output
  unknown_command : Output
  error_text : Error → Output

-- The process that is debugged, and what has been printed.
pub record Session (K : Type 0) : Type 0 where
  pub process : Process K
  pub printed : List Output

module _ {K : Type 0} where
  -- An operation of the process.
  abbrev pub on_process :
      {A : Type 0} → (Process K → Outcome (Process K) A) → Session K → Outcome (Session K) A
  on_process m s = elim (m s.process) [
    | done a p ↦ done a (record s { process = p })
    | raised e p ↦ raised e (record s { process = p })
    | aborted ↦ aborted
    | unspecified ↦ unspecified
  ]

  abbrev pub print : Output → Session K → Outcome (Session K) (Unit {0})
  print o = modify (λ s. record s { printed = s.printed ++ o ∷ [] })

  abbrev pub print_all : List Output → Session K → Outcome (Session K) (Unit {0})
  print_all os = modify (λ s. record s { printed = s.printed ++ os })

  -- `args[i]`
  abbrev pub argument : ℕ → List (List ℕ) → Session K → Outcome (Session K) (List ℕ)
  argument i args s = elim (get_elem? args i) [ none ↦ unspecified | some a ↦ done a s ]

-- The text of PrintHelp for the name of a command.
unfoldable pub topic_of : List ℕ → Output
unfolding is_prefix
topic_of name =
    if is_prefix name (codes "memory")
    then help of_memory
    else if is_prefix name (codes "breakpoint")
    then help of_breakpoint
    else if is_prefix name (codes "register")
    then help of_register
    else if is_prefix name (codes "disassemble")
    then help of_disassemble
    else if is_prefix name (codes "watchpoint")
    then help of_watchpoint
    else if is_prefix name (codes "catchpoint")
    then help of_catchpoint
    else no_help name

module _ {K : Type 0} where
  -- PrintHelp
  unfoldable pub print_help : List (List ℕ) → Session K → Outcome (Session K) (Unit {0})
  unfolding topic_of
  print_help args =
      if length args == 1
      then print (help overview)
      else (argument 1 args >>= λ name. print (topic_of name))

  -- `PrintHelp({"help", name})`
  abbrev pub help_for : List ℕ → Session K → Outcome (Session K) (Unit {0})
  help_for name = print_help (codes "help" ∷ name ∷ [])
