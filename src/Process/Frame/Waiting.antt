-- ===== src/Process/Frame/Waiting.antt =====
-- Waiting and stepping, on an invariant of the breakpoint sites that enabling and disabling a site
-- keep.
use building_a_debugger.Common.{
  ℕ, zero, suc, Bool, ◌&&◌, ◌==◌, Option, none, some, if◌then◌else◌, waitpid_failed,
  could_not_single_step,
}
use building_a_debugger.Stoppoints.{get_by_address, enabled_stop_point_at_address}
use building_a_debugger.Registers.Table.{id_rip}
use building_a_debugger.Process.State.{
  Process, site_point, watch_point, TrapType, single_step, software_breakpoint, hardware_breakpoint,
  syscall, unknown, StopReason, Env, Outcome, done, unspecified, ◌>>=◌, ◌>>◌, pure, get, modify,
  lift, ask, tell,
}
use building_a_debugger.Process.Always.{if-Always}
use building_a_debugger.Process.Registers.{get_pc, read_all_registers}
use building_a_debugger.Process.Sites.{enable_site, disable_site}
use building_a_debugger.Process.Stops.{
  augment_stop_reason, resume, fix_pc, update_watchpoint, is_stopped, is_passed_over,
  wait_on_signal, stop_handling, maybe_resume, step_instruction,
}
use building_a_debugger.Process.StopReason.{sigtrap, stop_reason}
use building_a_debugger.Process.Frame.{
  Framed, Keeps, bind-Keeps, if-Keeps, lift-Keeps, get-Keeps, ask-Keeps, tell-Keeps,
  with_kernel-Keeps, read_by_id-Keeps, read_all_registers-Keeps,
}
use building_a_debugger.Process.Frame.Stops.{
  augment_stop_reason-Keeps, fix_pc-Keeps, update_watchpoint-Keeps, resume-Keeps,
}

module _ {K : Type 0} (env : Env K) (I : Process K → Type 0) (framed : Framed I)
    (enables : (i : ℕ) → Keeps I (enable_site env i))
    (disables : (i : ℕ) → Keeps I (disable_site env i)) where
  told_by-Keeps :
      (told : Option StopReason)
      → Keeps I (elim told [ none ↦ (λ q. unspecified) | some r ↦ pure r ])
  told_by-Keeps none p i = tt
  told_by-Keeps (some r) p i = i

  of_trap-Keeps :
      (fuel : ℕ) (r : StopReason) (trap : Option TrapType)
      → Keeps I (maybe_resume env fuel r)
      → Keeps I (elim trap [
        | none ↦ pure r
        | some t ↦ elim t [
          | software_breakpoint ↦ fix_pc env >> pure r
          | hardware_breakpoint ↦ update_watchpoint env >> pure r
          | syscall ↦ maybe_resume env fuel r
          | _ ↦ pure r
        ]
      ])
  of_trap-Keeps fuel r none h p i = i
  of_trap-Keeps fuel r (some single_step) h p i = i
  of_trap-Keeps fuel r (some software_breakpoint) h p i =
      bind-Keeps I (fix_pc env) (λ u. pure r) (fix_pc-Keeps env I framed enables disables)
        (λ u q j. j) p i
  of_trap-Keeps fuel r (some hardware_breakpoint) h p i =
      bind-Keeps I (update_watchpoint env) (λ u. pure r)
        (update_watchpoint-Keeps env I framed enables disables) (λ u q j. j) p i
  of_trap-Keeps fuel r (some syscall) h p i = h p i
  of_trap-Keeps fuel r (some unknown) h p i = i

  waited-Keeps :
      (fuel : ℕ)
      → ((r : StopReason) → Keeps I (stop_handling env fuel r))
      → Keeps I (wait_on_signal env (suc fuel))
  unfolding wait_on_signal
  waited-Keeps fuel h =
      bind-Keeps I (ask env.kernel.wait_pid waitpid_failed) _
        (ask-Keeps env I framed env.kernel.wait_pid waitpid_failed)
        λ (status, k). bind-Keeps I (modify _) _ (with_kernel-Keeps env I framed k) λ u.
          bind-Keeps I _ _ (told_by-Keeps (stop_reason status)) λ r p i.
            if-Keeps I (p.is_attached && is_stopped env r.reason) (stop_handling env fuel r)
              (pure r) (h r) (λ q j. j) (record p { state = r.reason })
              (framed.with_state p i r.reason)

  handled-Keeps :
      (fuel : ℕ)
      → ((r : StopReason) → Keeps I (maybe_resume env fuel r))
      → (reason : StopReason) → Keeps I (stop_handling env (suc fuel) reason)
  unfolding wait_on_signal
  handled-Keeps fuel h reason =
      bind-Keeps I (read_all_registers env) _ (read_all_registers-Keeps env I framed) λ u.
        bind-Keeps I (augment_stop_reason env reason) _
          (augment_stop_reason-Keeps env I framed enables disables reason)
          λ r.
            if-Keeps I (r.info == sigtrap) _ (pure r) (of_trap-Keeps fuel r r.trap_reason (h r))
              (λ q j. j)

  resumed-Keeps :
      (fuel : ℕ)
      → Keeps I (wait_on_signal env fuel)
      → (reason : StopReason) → Keeps I (maybe_resume env (suc fuel) reason)
  unfolding wait_on_signal
  resumed-Keeps fuel h reason p i =
      if-Always I (is_passed_over env reason p) _ (done reason p)
        (bind-Keeps I (resume env) (λ u. wait_on_signal env fuel)
          (resume-Keeps env I framed enables disables) (λ u. h) p i)
        i

  -- The three that call one another, by induction on the fuel that they share.
  waits-Keeps :
      (fuel : ℕ)
      → Keeps I (wait_on_signal env fuel)
        × ((r : StopReason) → Keeps I (stop_handling env fuel r))
        × ((r : StopReason) → Keeps I (maybe_resume env fuel r))
  unfolding wait_on_signal
  waits-Keeps zero = ((λ p i. tt), (λ r p i. tt), (λ r p i. tt))
  waits-Keeps (suc fuel) =
      let keeps = waits-Keeps fuel in
      (waited-Keeps fuel keeps.1, handled-Keeps fuel keeps.2, resumed-Keeps fuel keeps.0)

  pub wait_on_signal-Keeps : (fuel : ℕ) → Keeps I (wait_on_signal env fuel)
  wait_on_signal-Keeps fuel = (waits-Keeps fuel).0

  -- An operation on the site at the program counter, if there is an enabled one.
  at_site-Keeps :
      (b : Bool) (pc : ℕ) (p : Process K)
      (operation : ℕ → Process K → Outcome (Process K) (Unit {0}))
      → ((n : ℕ) → Keeps I (operation n))
      → Keeps I (if b then (lift (get_by_address pc p.breakpoint_sites) >>= operation) else pure tt)
  at_site-Keeps b pc p operation h =
      let found = lift (get_by_address pc p.breakpoint_sites) in
      if-Keeps I b (found >>= operation) (pure tt)
        (bind-Keeps I found operation (lift-Keeps I (get_by_address pc p.breakpoint_sites)) h)
        (λ q i. i)

  pub step_instruction-Keeps : (fuel : ℕ) → Keeps I (step_instruction env fuel)
  unfolding step_instruction
  step_instruction-Keeps fuel =
      bind-Keeps I (get_pc env) _ (read_by_id-Keeps env I framed id_rip) λ pc.
        bind-Keeps I get _ (get-Keeps I) λ p.
          let enabled = enabled_stop_point_at_address pc p.breakpoint_sites in
          bind-Keeps I _ _ (at_site-Keeps enabled pc p (disable_site env) disables) λ u.
            bind-Keeps I (tell env.kernel.single_step could_not_single_step) _
              (tell-Keeps env I framed env.kernel.single_step could_not_single_step)
              λ u. bind-Keeps I (wait_on_signal env fuel) _ (wait_on_signal-Keeps fuel) λ reason.
                bind-Keeps I _ (λ u. pure reason)
                  (at_site-Keeps enabled pc p (enable_site env) enables) λ u q i. i
