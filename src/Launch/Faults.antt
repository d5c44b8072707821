-- ===== src/Launch/Faults.antt =====
-- Process::Launch of src/process.cpp where the fork fails.
use building_a_debugger.Common.{
  ℕ, suc, ◌≡◌, ap, true, List, [], Option, none, some, waitpid_failed, Error,
}
use building_a_debugger.Common.Int.{ℤ, negsuc}
use building_a_debugger.Process.State.{
  Process, Env, Outcome, done, raised, aborted, unspecified, ◌>>=◌, ask,
}
use building_a_debugger.Process.Stops.{wait_on_signal}
use building_a_debugger.Launch.{
  System, sigkill, sigcont, new_process, end_process, holding, hold_launched, run_parent, launch,
}

bind-raised :
    {S A B : Type 0} (m : S → Outcome S A) (f : A → S → Outcome S B) (s t : S) (e : Error)
    → m s ≡ raised e t
    → (m >>= f) s ≡ raised e t
bind-raised m f s t e h =
    ap
      (λ o. elim o [
        | done a u ↦ f a u
        | raised e u ↦ raised e u
        | aborted ↦ aborted
        | unspecified ↦ unspecified
      ])
      h

ask-none :
    {K A : Type 0} (request : K → Option A) (e : Error) (p : Process K)
    → request p.kernel_state ≡ none
    → ask request e p ≡ raised e p
ask-none request e p h = ap (λ o. elim o [ none ↦ raised e p | some a ↦ done a p ]) h

module _ {K : Type 0} (system : System K) (env : ℤ → Env K) (fuel : ℕ) (unset : ℕ → ℕ) where
  wait_on_signal-failed :
      (pid : ℤ) (p : Process K)
      → (env pid).kernel.wait_pid p.kernel_state ≡ none
      → wait_on_signal (env pid) (suc fuel) p ≡ raised waitpid_failed p
  unfolding wait_on_signal
  wait_on_signal-failed pid p h =
      bind-raised (ask (env pid).kernel.wait_pid waitpid_failed) _ p p waitpid_failed
        (ask-none (env pid).kernel.wait_pid waitpid_failed p h)

  -- Where the fork fails, the parent goes on with the PID -1. If a read from the pipe finds nothing
  -- and there is no child to wait for, Launch in debug mode throws what the wait throws; but before
  -- that it has detached, and sent SIGCONT and then SIGKILL, to -1, which is every process that it
  -- may send a signal to.
  pub launch-fork_failed :
      (path : List ℕ) (stdout_replacement : Option ℕ) (k piped : K)
      → system.make_pipe k ≡ some piped
      → system.fork piped ≡ none
      → system.read_pipe [] ≡ some []
      → (env (negsuc 0)).kernel.wait_pid piped ≡ none
      → launch system env (suc fuel) unset path true stdout_replacement k
        ≡ raised waitpid_failed (
            system.reap (negsuc 0) (
              system.kill
                (negsuc 0)
                sigkill
                (system.kill (negsuc 0) sigcont (system.detach (negsuc 0) piped))))
  unfolding launch run_parent hold_launched new_process end_process
  launch-fork_failed path stdout_replacement k piped made failed empty alone =
      let o = new_process unset (negsuc 0) true true piped in
      rw (made, launch)
        (rw (failed, launch)
          (rw (empty, run_parent)
            (ap (holding system o) (
              bind-raised (wait_on_signal (env (negsuc 0)) (suc fuel)) _ o.process o.process
                waitpid_failed (wait_on_signal-failed (negsuc 0) o.process alone)))))
