-- ===== src/Cli/Memory.antt =====
-- HandleMemoryCommand of src/tools/sdb.cpp, with its two subcommands.
use building_a_debugger.Common.{
  ℕ, zero, suc, ◌+◌, ◌-◌, ◌%◌, ◌^◌, List, [], ◌∷◌, ltb, ◌==◌, not, if◌then◌else◌, none, some,
  length, take, drop, invalid_address_format, invalid_number_of_bytes,
}
use building_a_debugger.Common.Text.{codes}
use building_a_debugger.Address.{add64}
use building_a_debugger.Parse.{to_integral, parse_vector}
use building_a_debugger.Process.State.{Env, Outcome, ◌>>=◌, pure, raise, lift}
use building_a_debugger.Process.Memory.{read_memory, write_memory}
use building_a_debugger.Cli.{
  Session, Output, memory_line, on_process, print_all, argument, is_prefix, help_for,
}

-- A `size_t` that is kept in an `int` and becomes a `size_t` again.
unfoldable pub through_int : ℕ → ℕ
through_int n = let low = n % 2 ^ 32 in if ltb low (2 ^ 31) then low else low + 2 ^ 64 - 2 ^ 32

-- The lines of 16 bytes each, at most as many as there are bytes.
unfoldable pub memory_lines : ℕ → ℕ → List ℕ → List Output
memory_lines zero address bytes = []
memory_lines (suc fuel) address bytes =
    let rest = memory_lines fuel (add64 address 16) (drop 16 bytes) in
    elim bytes [ [] ↦ [] | b ∷ bs ↦ memory_line address (take 16 (b ∷ bs)) ∷ rest ]

module _ {K : Type 0} (env : Env K) where
  -- An optional that holds an address, or an exception.
  abbrev pub address_of : List ℕ → Session K → Outcome (Session K) ℕ
  address_of text = lift (to_integral (2 ^ 64) 16 text) >>= λ address. elim address [
    | none ↦ raise invalid_address_format
    | some a ↦ pure a
  ]

  -- The number of bytes to read: 32, or the fourth word.
  unfoldable pub number_of_bytes : List (List ℕ) → Session K → Outcome (Session K) ℕ
  unfolding through_int
  number_of_bytes args =
      let given = (do
        text ← argument 3 args
        bytes ← lift (to_integral (2 ^ 64) 10 text)
        elim bytes [ none ↦ raise invalid_number_of_bytes | some n ↦ pure (through_int n) ]) in
      if length args == 4 then given else pure 32

  unfoldable pub handle_memory_read_command :
      List (List ℕ) → Session K → Outcome (Session K) (Unit {0})
  unfolding number_of_bytes memory_lines
  handle_memory_read_command args = do
    text ← argument 2 args
    address ← address_of text
    n ← number_of_bytes args
    bytes ← on_process (read_memory env address n)
    print_all (memory_lines (length bytes) address bytes)

  unfoldable pub handle_memory_write_command :
      List (List ℕ) → Session K → Outcome (Session K) (Unit {0})
  handle_memory_write_command args =
      let write = (do
        text ← argument 2 args
        address ← address_of text
        bytes_text ← argument 3 args
        bytes ← lift (parse_vector bytes_text)
        on_process (write_memory env address bytes)) in
      if not (length args == 4) then help_for (codes "memory") else write

  unfoldable pub handle_memory_command : List (List ℕ) → Session K → Outcome (Session K) (Unit {0})
  unfolding handle_memory_read_command handle_memory_write_command
  handle_memory_command args =
      let dispatch = argument 1 args >>= λ command.
      if is_prefix command (codes "read")
      then handle_memory_read_command args
      else if is_prefix command (codes "write")
      then handle_memory_write_command args
      else help_for (codes "memory") in
      if ltb (length args) 3 then help_for (codes "memory") else dispatch
