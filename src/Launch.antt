-- ===== src/Launch.antt =====
-- Launch, Attach and the destructor of src/process.cpp.
pub mod Target
pub mod Faults
pub mod Sessions
use building_a_debugger.Common.{
  ℕ, ◌+◌, ◌%◌, ◌^◌, Bool, true, false, List, [], ◌∷◌, ◌++◌, ◌==◌, if◌then◌else◌, Option, none, some,
  Run, ok, throws, undefined, Error, pipe_creation_failed, could_not_read_from_pipe,
  set_options_failed, invalid_pid, could_not_attach, child_failed,
}
use building_a_debugger.Common.Int.{ℤ, pos, negsuc, ◌==ℤ◌}
use building_a_debugger.Common.Text.{codes}
use building_a_debugger.Elf.{Elf, create_loaded_elf}
use building_a_debugger.Process.State.{
  Process, ProcessState, running, stopped, exited, terminated, catch_none, StopReason, Env, Outcome,
  done, raised, aborted, unspecified, ◌>>=◌, ◌>>◌, pure, tell,
}
use building_a_debugger.Process.Stops.{wait_on_signal}

-- The system calls that start and end a process. `K` is the state of the system, and `none` is the
-- error return; those whose result the source does not look at return the state. A process is named
-- by its PID. `read_pipe` is what a read from a pipe returns after a text has been written to it and
-- its write end is closed, and `reason` the text of errno.
pub record System (K : Type 0) : Type 0 where
  pub make_pipe : K → Option K
  pub fork : K → Option (ℕ × K)
  pub set_group : K → Option K
  pub set_personality : K → K
  pub replace_stdout : ℕ → K → Option K
  pub trace_me : K → Option K
  pub exec : List ℕ → K → Option K
  pub reason : K → List ℕ
  pub read_pipe : List ℕ → Option (List ℕ)
  pub attach : ℤ → K → Option K
  pub set_options : ℤ → K → Option K
  pub kill : ℤ → ℕ → K → K
  pub detach : ℤ → K → K
  pub reap : ℤ → K → K
  pub auxiliary_words : ℤ → K → List ℕ

abbrev pub sigkill : ℕ
sigkill = 9

abbrev pub sigcont : ℕ
sigcont = 18

abbrev pub sigstop : ℕ
sigstop = 19

-- The members of sdb::Process that only its end looks at, beside the others.
pub record Owned (K : Type 0) : Type 0 where
  pub pid : ℤ
  pub terminate_on_end : Bool
  pub process : Process K

-- The child, up to the program that it becomes: what it has written to the pipe.
pub record Forked (K : Type 0) : Type 0 where
  pub written : List ℕ
  pub system : K

-- The constructor. The registers are not initialised, and no site or watchpoint has been created.
unfoldable pub new_process : {K : Type 0} → (ℕ → ℕ) → ℤ → Bool → Bool → K → Owned K
new_process unset pid terminate_on_end is_attached k = record {
  pid = pid;
  terminate_on_end = terminate_on_end;
  process = record {
    kernel_state = k;
    user = unset;
    is_attached = is_attached;
    expecting_syscall_exit = false;
    state = stopped;
    breakpoint_sites = [];
    watchpoints = [];
    policy = record { mode = catch_none; to_catch = [] };
    last_site_id = 0;
    last_watchpoint_id = 0;
  };
}

module _ {K : Type 0} (system : System K) where
  -- ExitWithPerror, where a call of the child has failed.
  abbrev pub exit_with : List ℕ → K → Forked K
  exit_with prefix k = record { written = prefix ++ codes ": " ++ system.reason k; system = k }

  abbrev pub or_exit : List ℕ → K → Option K → (K → Forked K) → Forked K
  or_exit prefix k result next = elim result [ none ↦ exit_with prefix k | some t ↦ next t ]

  abbrev pub replaced : Option ℕ → K → Option K
  replaced none k = some k
  replaced (some fd) k = system.replace_stdout fd k

  unfoldable pub run_child : List ℕ → Bool → Option ℕ → K → Forked K
  run_child path debug stdout_replacement k =
      or_exit (codes "Could not set pgid") k (system.set_group k) λ grouped.
        let fixed = system.set_personality grouped in
        or_exit (codes "stdout replacement failed") fixed (replaced stdout_replacement fixed)
          λ sent.
            or_exit (codes "Tracing failed") sent
              (if debug then system.trace_me sent else some sent)
              λ traced.
                or_exit (codes "exec failed") traced (system.exec path traced)
                  λ started. record { written = []; system = started }

  abbrev pub is_running : ProcessState → Bool
  is_running state = elim state [ running ↦ true | _ ↦ false ]

  -- The destructor, which looks at no result.
  unfoldable pub end_process : Owned K → K
  end_process o =
      let k = o.process.kernel_state in
      let halted =
        if is_running o.process.state then system.reap o.pid (system.kill o.pid sigstop k) else k in
      let left =
        if o.process.is_attached
        then system.kill o.pid sigcont (system.detach o.pid halted)
        else k in
      let ended =
        if o.terminate_on_end then system.reap o.pid (system.kill o.pid sigkill left) else left in
      if o.pid ==ℤ pos 0 then k else ended

  -- An exception ends the process that is held: its destructor runs.
  abbrev pub holding : {A : Type 0} → Owned K → Outcome (Process K) A → Outcome K (Owned K)
  holding o (done a p) = done (record o { process = p }) p.kernel_state
  holding o (raised e p) = raised e (end_process (record o { process = p }))
  holding o aborted = aborted
  holding o unspecified = unspecified

  module _ (env : ℤ → Env K) (fuel : ℕ) (unset : ℕ → ℕ) where
    -- WaitOnSignal and SetPtraceOptions
    abbrev pub wait_and_set_options : ℤ → Process K → Outcome (Process K) (Unit {0})
    wait_and_set_options pid =
        wait_on_signal (env pid) fuel >>= λ reason. tell (system.set_options pid) set_options_failed

    unfoldable pub hold_launched : Bool → ℤ → K → Outcome K (Owned K)
    unfolding new_process end_process
    hold_launched debug pid k =
        let o = new_process unset pid true debug k in
        if debug then holding o (wait_and_set_options pid o.process) else done o k

    -- The parent, behind the fork.
    unfoldable pub run_parent : Bool → ℤ → Forked K → Outcome K (Owned K)
    unfolding hold_launched
    run_parent debug pid forked = elim (system.read_pipe forked.written) [
      | none ↦ raised could_not_read_from_pipe forked.system
      | some read ↦ elim read [
        | [] ↦ hold_launched debug pid forked.system
        | c ∷ cs ↦ raised (child_failed (c ∷ cs)) (system.reap pid forked.system)
      ]
    ]

    -- Process::Launch. Where the fork fails the PID is -1, and the parent goes on.
    unfoldable pub launch : List ℕ → Bool → Option ℕ → K → Outcome K (Owned K)
    unfolding run_parent run_child
    launch path debug stdout_replacement k = elim (system.make_pipe k) [
      | none ↦ raised pipe_creation_failed k
      | some piped ↦ elim (system.fork piped) [
        | none ↦ run_parent debug (negsuc 0) (record { written = []; system = piped })
        | some (pid, forked) ↦
            run_parent debug (pos pid) (run_child path debug stdout_replacement forked)
      ]
    ]

    unfoldable pub hold_attached : ℤ → K → Outcome K (Owned K)
    unfolding new_process end_process
    hold_attached pid k =
        let o = new_process unset pid false true k in holding o (wait_and_set_options pid o.process)

    -- Process::Attach
    unfoldable pub attach : ℤ → K → Outcome K (Owned K)
    unfolding hold_attached
    attach pid k = if pid ==ℤ pos 0 then raised invalid_pid k else elim (system.attach pid k) [
      | none ↦ raised could_not_attach k
      | some t ↦ hold_attached pid t
    ]
