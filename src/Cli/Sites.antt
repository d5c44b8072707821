-- ===== src/Cli/Sites.antt =====
-- HandleBreakpointCommand of src/tools/sdb.cpp.
use building_a_debugger.Common.{
  ℕ, ◌^◌, Bool, true, false, List, [], ◌∷◌, ltb, ◌==◌, if◌then◌else◌, none, some, length,
  invalid_breakpoint_argument,
}
use building_a_debugger.Common.Int.{ℤ}
use building_a_debugger.Common.Text.{codes, text_eq}
use building_a_debugger.Parse.{to_integral, to_integral_int}
use building_a_debugger.Stoppoints.{is_empty, get_by_id}
use building_a_debugger.Process.State.{
  Process, BreakpointSite, site_point, Env, Outcome, ◌>>=◌, ◌>>◌, pure, raise, get, lift,
}
use building_a_debugger.Process.Sites.{
  create_breakpoint_site, enable_site, disable_site, remove_site_by_id,
}
use building_a_debugger.Cli.{
  Session, Output, no_breakpoints, breakpoints_follow, breakpoint_line, expects_address,
  expects_breakpoint_id, on_process, print, print_all, argument, is_prefix, help_for,
}

-- The lines of the sites that are not internal.
unfoldable pub breakpoint_lines : List BreakpointSite → List Output
breakpoint_lines [] = []
breakpoint_lines (b ∷ sites) =
    let rest = breakpoint_lines sites in
    if b.is_internal then rest else breakpoint_line b.id b.address b.is_enabled ∷ rest

module _ {K : Type 0} (env : Env K) where
  unfoldable pub list_breakpoints : Session K → Outcome (Session K) (Unit {0})
  unfolding breakpoint_lines
  list_breakpoints = do
    s ← get
    let sites = s.process.breakpoint_sites
    if is_empty sites
        then print no_breakpoints
        else print_all (breakpoints_follow ∷ breakpoint_lines sites)

  -- Whether a hardware breakpoint is asked for.
  unfoldable pub hardware_flag : List (List ℕ) → Session K → Outcome (Session K) Bool
  hardware_flag args =
      let given = argument 3 args >>= λ flag.
      if text_eq flag (codes "-h") then pure true else raise invalid_breakpoint_argument in
      if length args == 4 then given else pure false

  -- `CreateBreakpointSite(address, hardware).Enable()`; the site is not internal.
  unfoldable pub create_and_enable_site : ℕ → Bool → Process K → Outcome (Process K) (Unit {0})
  create_and_enable_site address hardware =
      create_breakpoint_site env address hardware false >>= enable_site env

  unfoldable pub set_breakpoint : List (List ℕ) → Session K → Outcome (Session K) (Unit {0})
  unfolding hardware_flag create_and_enable_site
  set_breakpoint args = do
    text ← argument 2 args
    address ← lift (to_integral (2 ^ 64) 16 text)
    elim address [
      | none ↦ print expects_address
      | some a ↦ hardware_flag args >>= λ hardware. on_process (create_and_enable_site a hardware)
    ]

  -- The site with an id, for an operation on it.
  abbrev pub on_site :
      ℤ
      → (ℕ → Process K → Outcome (Process K) (Unit {0}))
      → Process K
      → Outcome (Process K) (Unit {0})
  on_site id operation p = (lift (get_by_id id p.breakpoint_sites) >>= operation) p

  unfoldable pub change_breakpoint : List ℕ → ℤ → Process K → Outcome (Process K) (Unit {0})
  change_breakpoint command id =
      if is_prefix command (codes "enable")
      then on_site id (enable_site env)
      else if is_prefix command (codes "disable")
      then on_site id (disable_site env)
      else if is_prefix command (codes "delete")
      then remove_site_by_id env id
      else pure tt

  unfoldable pub change_site_by_id :
      List ℕ → List (List ℕ) → Session K → Outcome (Session K) (Unit {0})
  unfolding change_breakpoint
  change_site_by_id command args = do
    text ← argument 2 args
    id ← lift (to_integral_int 10 text)
    elim id [
      | none ↦ print expects_breakpoint_id
      | some i ↦ on_process (change_breakpoint command i)
    ]

  -- A listing goes on to what follows.
  unfoldable pub handle_breakpoint_command :
      List (List ℕ) → Session K → Outcome (Session K) (Unit {0})
  unfolding list_breakpoints set_breakpoint change_site_by_id
  handle_breakpoint_command args =
      let dispatch = argument 1 args >>= λ command.
      (if is_prefix command (codes "list") then list_breakpoints else pure tt)
      >> (if ltb (length args) 3
          then help_for (codes "breakpoint")
          else if is_prefix command (codes "set")
          then set_breakpoint args
          else change_site_by_id command args) in
      if ltb (length args) 2 then help_for (codes "breakpoint") else dispatch
