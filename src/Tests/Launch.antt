-- ===== src/Tests/Launch.antt =====
-- Launching on a system that remembers the signals that it has sent.
use building_a_debugger.Common.{
  ℕ, ◌≡◌, refl, inl, Run, ok, List, true, [], ◌∷◌, ◌==◌, if◌then◌else◌, none, some, take,
  waitpid_failed,
}
use building_a_debugger.Common.Int.{ℤ, pos, negsuc}
use building_a_debugger.Common.Text.{codes}
use building_a_debugger.Process.State.{Env, exited, done, raised}
use building_a_debugger.Process.Always.{Always}
use building_a_debugger.Process.Stops.{wait_on_signal, is_stopped}
use building_a_debugger.Process.StopReason.{stop_reason}
use building_a_debugger.Process.Sites.Invariant.{SitesValid}
use building_a_debugger.Cli.Loop.{main_loop}
use building_a_debugger.Cli.Frame.{OfProcess}
use building_a_debugger.Launch.{
  System, Owned, sigkill, sigcont, new_process, launch, run_child, run_parent, hold_launched,
}
use building_a_debugger.Elf.{Elf, create_loaded_elf}
use building_a_debugger.Launch.Target.{launch_target, create_target, get_auxiliary_vector, value_at}
use building_a_debugger.Launch.Sessions.{session-SitesValid}
use building_a_debugger.Launch.Faults.{launch-fork_failed}
use building_a_debugger.Tests.Machine.{env, machine, program}
use building_a_debugger.Tests.Cli.{tools, floats}

-- A signal is kept as the number of the last process it was sent to, where it is not the process -1.
abbrev signalled : ℤ → ℕ → (ℕ → ℕ) → ℕ → ℕ
signalled pid signal k a = if a == signal then elim pid [ pos n ↦ n | negsuc n ↦ 0 ] else k a

abbrev system : System (ℕ → ℕ)
system = record {
  make_pipe = λ k. some k;
  fork = λ k. some (7, k);
  set_group = λ k. some k;
  set_personality = λ k. k;
  replace_stdout = λ fd k. some k;
  trace_me = λ k. some k;
  exec = λ path k. some k;
  reason = λ k. [];
  read_pipe = λ text. some (take 1024 text);
  attach = λ pid k. some k;
  set_options = λ pid k. some k;
  kill = signalled;
  detach = λ pid k. k;
  reap = λ pid k. k;
  auxiliary_words = λ pid k. 9 ∷ 4096 ∷ 0 ∷ [];
}

abbrev without_children : ℤ → Env (ℕ → ℕ)
without_children pid = record env { kernel = record machine { wait_pid = λ k. none } }

abbrev crowded : System (ℕ → ℕ)
crowded = record system { fork = λ k. none }

launch-fork_failed_example :
    launch crowded without_children 1 program (codes "ls") true none program
    ≡ raised waitpid_failed (signalled (negsuc 0) sigkill (signalled (negsuc 0) sigcont program))
launch-fork_failed_example =
    launch-fork_failed crowded without_children 0 program (codes "ls") none program program refl
      refl refl refl

abbrev same : ℤ → Env (ℕ → ℕ)
same pid = env

owned : Owned (ℕ → ℕ)
unfolding new_process
owned = record {
  pid = pos 7;
  terminate_on_end = true;
  process = record (new_process program (pos 7) true true program).process { state = exited };
}

-- A site is set, disabled and deleted, with a step between, and its id is asked for once more.
abbrev lines : List (List ℕ)
lines =
    codes "breakpoint set 0x50"
    ∷ codes "step"
    ∷ codes "breakpoint disable 1"
    ∷ codes "breakpoint delete 1"
    ∷ codes "breakpoint enable 1"
    ∷ []

abbrev opened : Run Elf
opened = ok tools.elf

launched_target :
    launch_target system same 3 program (codes "ls") none opened program
    ≡ done (record { owner = owned; elf = create_loaded_elf 4096 tools.elf }) program
unfolding launch_target create_target get_auxiliary_vector value_at owned new_process launch
    run_child run_parent hold_launched wait_on_signal stop_reason is_stopped
launched_target = refl

session-SitesValid_example : Always (OfProcess SitesValid) (
    main_loop env
      (record tools { elf = create_loaded_elf 4096 tools.elf })
      floats
      3
      lines
      []
      (record { process = owned.process; printed = [] }))
session-SitesValid_example =
    session-SitesValid system same 3 program (codes "ls") none (pos 7) opened program program
      (record { owner = owned; elf = create_loaded_elf 4096 tools.elf }) tools.decode tools.syscalls
      floats lines (inl launched_target)
