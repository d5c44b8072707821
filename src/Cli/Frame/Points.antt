-- ===== src/Cli/Frame/Points.antt =====
-- The breakpoint commands, on an invariant of the breakpoint sites.
use building_a_debugger.Common.{
  ℕ, ◌^◌, Bool, true, false, List, ◌∷◌, ltb, ◌==◌, length, invalid_breakpoint_argument,
}
use building_a_debugger.Common.Int.{ℤ}
use building_a_debugger.Common.Text.{codes, text_eq}
use building_a_debugger.Parse.{to_integral, to_integral_int}
use building_a_debugger.Stoppoints.{is_empty, get_by_id}
use building_a_debugger.Process.State.{
  Process, site_point, watch_point, Env, Outcome, pure, raise, get, lift,
}
use building_a_debugger.Process.Sites.{enable_site, disable_site, remove_site_by_id}
use building_a_debugger.Process.Frame.{
  Keeps, bind-Keeps, if-Keeps, optional-Keeps, lift-Keeps, get-Keeps,
}
use building_a_debugger.Cli.{
  no_breakpoints, breakpoints_follow, expects_address, expects_breakpoint_id, print, print_all,
  is_prefix,
}
use building_a_debugger.Cli.Sites.{
  breakpoint_lines, list_breakpoints, hardware_flag, create_and_enable_site, set_breakpoint,
  on_site, change_breakpoint, change_site_by_id, handle_breakpoint_command,
}
use building_a_debugger.Cli.Frame.{
  OfProcess, on_process-Keeps, with_argument-Keeps, with_lift-Keeps, help_for-Keeps,
}

-- The operations on breakpoint sites keep the invariant.
pub record SiteOperations {K : Type 0} (env : Env K) (I : Process K → Type 0) : Type 0 where
  pub enables : (i : ℕ) → Keeps I (enable_site env i)
  pub disables : (i : ℕ) → Keeps I (disable_site env i)
  pub removes : (id : ℤ) → Keeps I (remove_site_by_id env id)
  pub creates :
      (address : ℕ) (hardware : Bool) → Keeps I (create_and_enable_site env address hardware)

module _ {K : Type 0} (env : Env K) (I : Process K → Type 0) (sites : SiteOperations env I) where
  list_breakpoints-Keeps : Keeps (OfProcess I) (list_breakpoints env)
  unfolding list_breakpoints
  list_breakpoints-Keeps = bind-Keeps (OfProcess I) get _ (get-Keeps (OfProcess I)) λ s.
      if-Keeps (OfProcess I) (is_empty s.process.breakpoint_sites) (print no_breakpoints)
        (print_all (breakpoints_follow ∷ breakpoint_lines s.process.breakpoint_sites)) (λ t i. i)
        (λ t i. i)

  hardware_flag-Keeps : (args : List (List ℕ)) → Keeps (OfProcess I) (hardware_flag env args)
  unfolding hardware_flag
  hardware_flag-Keeps args =
      if-Keeps (OfProcess I) (length args == 4) _ (pure false)
        (with_argument-Keeps I 3 args _ λ flag.
          if-Keeps (OfProcess I) (text_eq flag (codes "-h")) (pure true)
            (raise invalid_breakpoint_argument) (λ s i. i) (λ s i. i))
        (λ s i. i)

  set_breakpoint-Keeps : (args : List (List ℕ)) → Keeps (OfProcess I) (set_breakpoint env args)
  unfolding set_breakpoint
  set_breakpoint-Keeps args = with_argument-Keeps I 2 args _ λ text.
      with_lift-Keeps I (to_integral (2 ^ 64) 16 text) _ λ address.
        optional-Keeps (OfProcess I) address (print expects_address) _ (λ s i. i)
          λ a.
            bind-Keeps (OfProcess I) (hardware_flag env args) _ (hardware_flag-Keeps args)
              λ hardware.
                on_process-Keeps I (create_and_enable_site env a hardware)
                  (sites.creates a hardware)

  on_site-Keeps :
      (id : ℤ) (operation : ℕ → Process K → Outcome (Process K) (Unit {0}))
      → ((i : ℕ) → Keeps I (operation i))
      → Keeps I (on_site env id operation)
  on_site-Keeps id operation h p i =
      bind-Keeps I (lift (get_by_id id p.breakpoint_sites)) operation
        (lift-Keeps I (get_by_id id p.breakpoint_sites)) h p i

  change_breakpoint-Keeps : (command : List ℕ) (id : ℤ) → Keeps I (change_breakpoint env command id)
  unfolding change_breakpoint
  change_breakpoint-Keeps command id =
      if-Keeps I (is_prefix command (codes "enable")) _ _
        (on_site-Keeps id (enable_site env) sites.enables)
        (if-Keeps I (is_prefix command (codes "disable")) _ _
          (on_site-Keeps id (disable_site env) sites.disables)
          (if-Keeps I (is_prefix command (codes "delete")) _ (pure tt) (sites.removes id)
            (λ p i. i)))

  change_site_by_id-Keeps :
      (command : List ℕ) (args : List (List ℕ))
      → Keeps (OfProcess I) (change_site_by_id env command args)
  unfolding change_site_by_id
  change_site_by_id-Keeps command args = with_argument-Keeps I 2 args _ λ text.
      with_lift-Keeps I (to_integral_int 10 text) _ λ id.
        optional-Keeps (OfProcess I) id (print expects_breakpoint_id) _ (λ s i. i)
          λ i.
            on_process-Keeps I (change_breakpoint env command i) (change_breakpoint-Keeps command i)

  pub handle_breakpoint_command-Keeps :
      (args : List (List ℕ)) → Keeps (OfProcess I) (handle_breakpoint_command env args)
  unfolding handle_breakpoint_command
  handle_breakpoint_command-Keeps args =
      if-Keeps (OfProcess I) (ltb (length args) 2) _ _ (help_for-Keeps I (codes "breakpoint")) (
        with_argument-Keeps I 1 args _ λ command.
          bind-Keeps (OfProcess I) _ _
            (if-Keeps (OfProcess I) (is_prefix command (codes "list")) _ (pure tt)
              list_breakpoints-Keeps (λ s i. i))
            λ u.
              if-Keeps (OfProcess I) (ltb (length args) 3) _ _
                (help_for-Keeps I (codes "breakpoint"))
                (if-Keeps (OfProcess I) (is_prefix command (codes "set")) _ _
                  (set_breakpoint-Keeps args) (change_site_by_id-Keeps command args)))
