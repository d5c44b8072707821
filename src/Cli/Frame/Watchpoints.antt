-- ===== src/Cli/Frame/Watchpoints.antt =====
-- The watchpoint commands, on an invariant of the breakpoint sites.
use building_a_debugger.Common.{ℕ, ◌^◌, List, ◌∷◌, ltb, ◌==◌, not, Option, none, some, length}
use building_a_debugger.Common.Int.{ℤ}
use building_a_debugger.Common.Text.{codes}
use building_a_debugger.Parse.{to_integral, to_integral_int}
use building_a_debugger.Stoppoints.{is_empty, get_by_id}
use building_a_debugger.Process.State.{
  Process, site_point, watch_point, StoppointMode, Env, Outcome, ◌>>=◌, pure, get, lift,
}
use building_a_debugger.Process.Watchpoints.{create_watchpoint, enable_watchpoint}
use building_a_debugger.Process.Frame.{
  Framed, Keeps, bind-Keeps, if-Keeps, optional-Keeps, lift-Keeps, get-Keeps,
}
use building_a_debugger.Process.Frame.Watchpoints.{
  create_watchpoint-Keeps, enable_watchpoint-Keeps, disable_watchpoint-Keeps,
  remove_watchpoint_by_id-Keeps,
}
use building_a_debugger.Cli.{
  no_watchpoints, watchpoints_follow, expects_watchpoint_id, on_process, print, print_all,
  is_prefix,
}
use building_a_debugger.Cli.Watchpoints.{
  watchpoint_lines, mode_of, handle_watchpoint_list, create_and_enable_watchpoint, set_watchpoint,
  handle_watchpoint_set, contained, on_watchpoint, change_watchpoint, change_watchpoint_by_id,
  handle_watchpoint_command,
}
use building_a_debugger.Cli.Frame.{
  OfProcess, on_process-Keeps, with_argument-Keeps, with_lift-Keeps, help_for-Keeps,
}

module _ {K : Type 0} (env : Env K) (I : Process K → Type 0) (framed : Framed I) where
  handle_watchpoint_list-Keeps : Keeps (OfProcess I) (handle_watchpoint_list env)
  unfolding handle_watchpoint_list
  handle_watchpoint_list-Keeps = bind-Keeps (OfProcess I) get _ (get-Keeps (OfProcess I)) λ s.
      if-Keeps (OfProcess I) (is_empty s.process.watchpoints) (print no_watchpoints)
        (print_all (watchpoints_follow ∷ watchpoint_lines s.process.watchpoints)) (λ t i. i)
        (λ t i. i)

  set_watchpoint-Keeps :
      (address : Option ℕ) (mode : Option StoppointMode) (size : Option ℕ)
      → Keeps (OfProcess I) (set_watchpoint env address mode size)
  unfolding set_watchpoint create_and_enable_watchpoint
  set_watchpoint-Keeps (some address) (some mode) (some size) s i =
      on_process-Keeps I (create_and_enable_watchpoint env address mode size)
        (bind-Keeps I (create_watchpoint env address mode size) (enable_watchpoint env)
          (create_watchpoint-Keeps env I framed address mode size)
          (enable_watchpoint-Keeps env I framed))
        s i
  set_watchpoint-Keeps (some address) (some mode) none s i =
      help_for-Keeps I (codes "watchpoint") s i
  set_watchpoint-Keeps (some address) none size s i = help_for-Keeps I (codes "watchpoint") s i
  set_watchpoint-Keeps none mode size s i = help_for-Keeps I (codes "watchpoint") s i

  handle_watchpoint_set-Keeps :
      (args : List (List ℕ)) → Keeps (OfProcess I) (handle_watchpoint_set env args)
  unfolding handle_watchpoint_set
  handle_watchpoint_set-Keeps args =
      if-Keeps (OfProcess I) (not (length args == 5)) _ _ (help_for-Keeps I (codes "watchpoint")) (
        with_argument-Keeps I 2 args _ λ address_text. with_argument-Keeps I 3 args _ λ mode_text.
          with_argument-Keeps I 4 args _ λ size_text.
            with_lift-Keeps I (to_integral (2 ^ 64) 16 address_text) _ λ address.
              with_lift-Keeps I (to_integral (2 ^ 64) 10 size_text) _
                λ size. set_watchpoint-Keeps address (mode_of mode_text) size)

  with_id-Keeps :
      (id : Option ℤ) (operation : ℤ → Process K → Outcome (Process K) (Unit {0}))
      → ((i : ℤ) → Keeps I (operation i))
      → Keeps (OfProcess I) (contained env id >>= λ i. on_process (operation i))
  with_id-Keeps none operation h s i = tt
  with_id-Keeps (some id) operation h s i = on_process-Keeps I (operation id) (h id) s i

  on_watchpoint-Keeps :
      (operation : ℕ → Process K → Outcome (Process K) (Unit {0}))
      → ((i : ℕ) → Keeps I (operation i))
      → (id : ℤ) → Keeps I (on_watchpoint env id operation)
  on_watchpoint-Keeps operation h id p i =
      bind-Keeps I (lift (get_by_id id p.watchpoints)) operation
        (lift-Keeps I (get_by_id id p.watchpoints)) h p i

  change_watchpoint-Keeps :
      (command : List ℕ) (id : Option ℤ) → Keeps (OfProcess I) (change_watchpoint env command id)
  unfolding change_watchpoint
  change_watchpoint-Keeps command id =
      if-Keeps (OfProcess I) (is_prefix command (codes "enable")) _ _
        (with_id-Keeps id _ (on_watchpoint-Keeps _ (enable_watchpoint-Keeps env I framed)))
        (if-Keeps (OfProcess I) (is_prefix command (codes "disable")) _ _
          (with_id-Keeps id _ (on_watchpoint-Keeps _ (disable_watchpoint-Keeps env I framed)))
          (if-Keeps (OfProcess I) (is_prefix command (codes "delete")) _ (pure tt)
            (with_id-Keeps id _ (remove_watchpoint_by_id-Keeps env I framed)) (λ s i. i)))

  change_watchpoint_by_id-Keeps :
      (command : List ℕ) (args : List (List ℕ))
      → Keeps (OfProcess I) (change_watchpoint_by_id env command args)
  unfolding change_watchpoint_by_id
  change_watchpoint_by_id-Keeps command args = with_argument-Keeps I 2 args _ λ text.
      with_lift-Keeps I (to_integral_int 10 text) _ λ id.
        bind-Keeps (OfProcess I) _ (λ u. change_watchpoint env command id)
          (optional-Keeps (OfProcess I) id (print expects_watchpoint_id) (λ i. pure tt) (λ s i. i)
            (λ a s i. i))
          λ u. change_watchpoint-Keeps command id

  pub handle_watchpoint_command-Keeps :
      (args : List (List ℕ)) → Keeps (OfProcess I) (handle_watchpoint_command env args)
  unfolding handle_watchpoint_command
  handle_watchpoint_command-Keeps args =
      if-Keeps (OfProcess I) (ltb (length args) 2) _ _ (help_for-Keeps I (codes "watchpoint")) (
        with_argument-Keeps I 1 args _ λ command.
          if-Keeps (OfProcess I) (is_prefix command (codes "list")) _ _ handle_watchpoint_list-Keeps
            (if-Keeps (OfProcess I) (is_prefix command (codes "set")) _ _
              (handle_watchpoint_set-Keeps args)
              (if-Keeps (OfProcess I) (ltb (length args) 3) _ _
                (help_for-Keeps I (codes "watchpoint"))
                (change_watchpoint_by_id-Keeps command args))))
