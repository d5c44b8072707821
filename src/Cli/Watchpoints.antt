-- ===== src/Cli/Watchpoints.antt =====
-- HandleWatchpointCommand of src/tools/sdb.cpp, with its subcommands.
use building_a_debugger.Common.{
  ℕ, ◌^◌, List, [], ◌∷◌, ltb, ◌==◌, not, if◌then◌else◌, Option, none, some, length,
}
use building_a_debugger.Common.Int.{ℤ}
use building_a_debugger.Common.Text.{codes, text_eq}
use building_a_debugger.Parse.{to_integral, to_integral_int}
use building_a_debugger.Stoppoints.{is_empty, get_by_id}
use building_a_debugger.Process.State.{
  Process, Watchpoint, watch_point, StoppointMode, write, read_write, execute, Env, Outcome,
  unspecified, ◌>>=◌, ◌>>◌, pure, get, lift,
}
use building_a_debugger.Process.Watchpoints.{
  create_watchpoint, enable_watchpoint, disable_watchpoint, remove_watchpoint_by_id,
}
use building_a_debugger.Cli.{
  Session, Output, no_watchpoints, watchpoints_follow, watchpoint_line, expects_watchpoint_id,
  on_process, print, print_all, argument, is_prefix, help_for,
}

unfoldable pub watchpoint_lines : List Watchpoint → List Output
watchpoint_lines [] = []
watchpoint_lines (w ∷ ws) =
    watchpoint_line w.id w.address w.mode w.size w.is_enabled ∷ watchpoint_lines ws

-- The mode that one of the three words names.
unfoldable pub mode_of : List ℕ → Option StoppointMode
mode_of text =
    if text_eq text (codes "execute")
    then some execute
    else if text_eq text (codes "write")
    then some write
    else if text_eq text (codes "rw")
    then some read_write
    else none

module _ {K : Type 0} (env : Env K) where
  unfoldable pub handle_watchpoint_list : Session K → Outcome (Session K) (Unit {0})
  unfolding watchpoint_lines
  handle_watchpoint_list = do
    s ← get
    let ws = s.process.watchpoints
    if is_empty ws
        then print no_watchpoints
        else print_all (watchpoints_follow ∷ watchpoint_lines ws)

  -- `CreateWatchpoint(address, mode, size).Enable()`
  unfoldable pub create_and_enable_watchpoint :
      ℕ → StoppointMode → ℕ → Process K → Outcome (Process K) (Unit {0})
  create_and_enable_watchpoint address mode size =
      create_watchpoint env address mode size >>= enable_watchpoint env

  -- Help, unless the address, the mode and the size are there.
  unfoldable pub set_watchpoint :
      Option ℕ → Option StoppointMode → Option ℕ → Session K → Outcome (Session K) (Unit {0})
  unfolding create_and_enable_watchpoint
  set_watchpoint (some address) (some mode) (some size) =
      on_process (create_and_enable_watchpoint address mode size)
  set_watchpoint (some address) (some mode) none = help_for (codes "watchpoint")
  set_watchpoint (some address) none size = help_for (codes "watchpoint")
  set_watchpoint none mode size = help_for (codes "watchpoint")

  unfoldable pub handle_watchpoint_set : List (List ℕ) → Session K → Outcome (Session K) (Unit {0})
  unfolding set_watchpoint mode_of
  handle_watchpoint_set args =
      let create = argument 2 args >>= λ address_text. argument 3 args >>= λ mode_text.
      argument 4 args >>= λ size_text. lift (to_integral (2 ^ 64) 16 address_text) >>= λ address.
      lift (to_integral (2 ^ 64) 10 size_text) >>= λ size.
      set_watchpoint address (mode_of mode_text) size in
      if not (length args == 5) then help_for (codes "watchpoint") else create

  -- `*id`, which is undefined for an empty optional.
  abbrev pub contained : Option ℤ → Session K → Outcome (Session K) ℤ
  contained none s = unspecified
  contained (some id) s = pure id s

  abbrev pub on_watchpoint :
      ℤ
      → (ℕ → Process K → Outcome (Process K) (Unit {0}))
      → Process K
      → Outcome (Process K) (Unit {0})
  on_watchpoint id operation p = (lift (get_by_id id p.watchpoints) >>= operation) p

  unfoldable pub change_watchpoint : List ℕ → Option ℤ → Session K → Outcome (Session K) (Unit {0})
  change_watchpoint command id =
      if is_prefix command (codes "enable")
      then (contained id >>= λ i. on_process (on_watchpoint i (enable_watchpoint env)))
      else if is_prefix command (codes "disable")
      then (contained id >>= λ i. on_process (on_watchpoint i (disable_watchpoint env)))
      else if is_prefix command (codes "delete")
      then (contained id >>= λ i. on_process (remove_watchpoint_by_id env i))
      else pure tt

  -- The message about a missing id does not return.
  unfoldable pub change_watchpoint_by_id :
      List ℕ → List (List ℕ) → Session K → Outcome (Session K) (Unit {0})
  unfolding change_watchpoint
  change_watchpoint_by_id command args = argument 2 args >>= λ text.
      lift (to_integral_int 10 text) >>= λ id.
      elim id [ none ↦ print expects_watchpoint_id | some i ↦ pure tt ]
      >> change_watchpoint command id

  unfoldable pub handle_watchpoint_command :
      List (List ℕ) → Session K → Outcome (Session K) (Unit {0})
  unfolding handle_watchpoint_list handle_watchpoint_set change_watchpoint_by_id
  handle_watchpoint_command args =
      let dispatch = argument 1 args >>= λ command.
      if is_prefix command (codes "list")
      then handle_watchpoint_list
      else if is_prefix command (codes "set")
      then handle_watchpoint_set args
      else if ltb (length args) 3
      then help_for (codes "watchpoint")
      else change_watchpoint_by_id command args in
      if ltb (length args) 2 then help_for (codes "watchpoint") else dispatch
