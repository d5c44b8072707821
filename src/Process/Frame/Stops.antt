-- ===== src/Process/Frame/Stops.antt =====
-- Resuming and what is read of a stop, on an invariant of the breakpoint sites that enabling and disabling a site
-- keep.
use building_a_debugger.Common.{ℕ, Bool, true, false, ◌==◌, List, [], ◌∷◌, Option, could_not_resume}
use building_a_debugger.Address.{sub64}
use building_a_debugger.Stoppoints.{get_by_address, get_by_id, enabled_stop_point_at_address}
use building_a_debugger.Registers.Table.{
  id_rip, id_rax, id_orig_rax, id_rdi, id_rsi, id_rdx, id_r10, id_r8, id_r9,
}
use building_a_debugger.Process.State.{
  Process, site_point, watch_point, running, PolicyMode, catch_none, StopReason, Env, ◌>>=◌, pure,
  get, modify, lift, ask, tell,
}
use building_a_debugger.Process.Registers.{read_by_id, get_pc}
use building_a_debugger.Process.Hardware.{
  site_id, watchpoint_id, StoppointId, get_current_hardware_stoppoint,
}
use building_a_debugger.Process.Sites.{enable_site, disable_site}
use building_a_debugger.Process.Watchpoints.{update_data}
use building_a_debugger.Process.Stops.{
  read_arguments, syscall_information, augment_stop_reason, step_over, resume, fix_pc,
  update_watchpoint,
}
use building_a_debugger.Process.StopReason.{sigtrap_syscall}
use building_a_debugger.Process.Frame.{
  Framed, Keeps, bind-Keeps, if-Keeps, lift-Keeps, get-Keeps, ask-Keeps, tell-Keeps,
  with_kernel-Keeps, read_by_id-Keeps, write_by_id-Keeps,
}
use building_a_debugger.Process.Frame.Memory.{get_current_hardware_stoppoint-Keeps}
use building_a_debugger.Process.Frame.Watchpoints.{update_data-Keeps}

module _ {K : Type 0} (env : Env K) (I : Process K → Type 0) (framed : Framed I)
    (enables : (i : ℕ) → Keeps I (enable_site env i))
    (disables : (i : ℕ) → Keeps I (disable_site env i)) where
  read_arguments-Keeps : (ids : List ℕ) → Keeps I (read_arguments env ids)
  unfolding read_arguments
  read_arguments-Keeps [] p i = i
  read_arguments-Keeps (id ∷ ids) p i =
      bind-Keeps I (read_by_id env id) _ (read_by_id-Keeps env I framed id)
        (λ value. bind-Keeps I (read_arguments env ids) _ (read_arguments-Keeps ids) λ rest q j. j)
        p i

  abbrev arguments : List ℕ
  arguments = id_rdi ∷ id_rsi ∷ id_rdx ∷ id_r10 ∷ id_r8 ∷ id_r9 ∷ []

  syscall_information-Keeps : (b : Bool) → Keeps I (syscall_information env b)
  unfolding syscall_information
  syscall_information-Keeps true =
      bind-Keeps I (read_by_id env id_orig_rax) _ (read_by_id-Keeps env I framed id_orig_rax) λ id.
        bind-Keeps I (read_by_id env id_rax) _ (read_by_id-Keeps env I framed id_rax)
          λ value p i. framed.with_expecting p i false
  syscall_information-Keeps false =
      bind-Keeps I (read_by_id env id_orig_rax) _ (read_by_id-Keeps env I framed id_orig_rax) λ id.
        bind-Keeps I (read_arguments env arguments) _ (read_arguments-Keeps arguments)
          λ args p i. framed.with_expecting p i true

  pub augment_stop_reason-Keeps : (reason : StopReason) → Keeps I (augment_stop_reason env reason)
  unfolding augment_stop_reason
  augment_stop_reason-Keeps reason =
      bind-Keeps I (ask env.kernel.signal_code _) _
        (ask-Keeps env I framed env.kernel.signal_code _)
        λ code. bind-Keeps I get _ (get-Keeps I) λ p.
          if-Keeps I (reason.info == sigtrap_syscall) _ _
            (bind-Keeps I (syscall_information env p.expecting_syscall_exit) _
              (syscall_information-Keeps p.expecting_syscall_exit) λ info p i. i)
            (λ q i. framed.with_expecting q i false)

  step_over-Keeps : (n : ℕ) → Keeps I (step_over env n)
  unfolding step_over
  step_over-Keeps n = bind-Keeps I (disable_site env n) _ (disables n) λ u.
      bind-Keeps I (tell env.kernel.single_step _) _
        (tell-Keeps env I framed env.kernel.single_step _)
        λ u.
          bind-Keeps I (ask env.kernel.wait_pid _) _ (ask-Keeps env I framed env.kernel.wait_pid _)
            λ waited.
              bind-Keeps I (modify _) _ (with_kernel-Keeps env I framed waited.1) λ u. enables n

  abbrev request : PolicyMode → K → Option K
  request mode = elim mode [
    | catch_none ↦ env.kernel.continue_process
    | _ ↦ env.kernel.continue_to_syscall
  ]

  pub resume-Keeps : Keeps I (resume env)
  unfolding resume
  resume-Keeps = bind-Keeps I (get_pc env) _ (read_by_id-Keeps env I framed id_rip) λ pc.
      bind-Keeps I get _ (get-Keeps I) λ p.
        bind-Keeps I _ _
          (if-Keeps I (enabled_stop_point_at_address pc p.breakpoint_sites) _ _
            (bind-Keeps I (lift (get_by_address pc p.breakpoint_sites)) _ (lift-Keeps I _)
              step_over-Keeps)
            (λ q i. i))
          λ u.
            bind-Keeps I (tell (request p.policy.mode) could_not_resume) _
              (tell-Keeps env I framed (request p.policy.mode) could_not_resume)
              λ u q i. framed.with_state q i running

  pub fix_pc-Keeps : Keeps I (fix_pc env)
  unfolding fix_pc
  fix_pc-Keeps = bind-Keeps I (get_pc env) _ (read_by_id-Keeps env I framed id_rip) λ pc.
      bind-Keeps I get _ (get-Keeps I) λ p.
        if-Keeps I (enabled_stop_point_at_address (sub64 pc 1) p.breakpoint_sites) _ _
          (write_by_id-Keeps env I framed id_rip (sub64 pc 1)) (λ q i. i)

  pub update_watchpoint-Keeps : Keeps I (update_watchpoint env)
  unfolding update_watchpoint
  update_watchpoint-Keeps =
      bind-Keeps I (get_current_hardware_stoppoint env) _
        (get_current_hardware_stoppoint-Keeps env I framed) of_id
    where
      of_id :
          (id : StoppointId)
          → Keeps I (elim id [
            | site_id s ↦ pure tt
            | watchpoint_id w ↦ λ p. (lift (get_by_id w p.watchpoints) >>= update_data env) p
          ])
      of_id (site_id s) p i = i
      of_id (watchpoint_id w) p i =
          bind-Keeps I (lift (get_by_id w p.watchpoints)) _ (lift-Keeps I _)
            (update_data-Keeps env I framed) p i
