-- ===== src/Tests/Stoppoints.antt =====
-- Breakpoint sites, watchpoints, debug registers and stop reasons at concrete inputs.
use building_a_debugger.Common.{
  ℕ, ◌*◌, ◌+◌, ◌%◌, ◌^◌, ◌≡◌, ◌⊎◌, refl, inr, false, arith, length, ◌==◌, if◌then◌else◌, some,
  already_created, not_aligned, could_not_read_memory,
}
use building_a_debugger.Common.Int.{pos}
use building_a_debugger.Stoppoints.{find_by_address, contains_address, push}
use building_a_debugger.Process.State.{
  exited, terminated, stopped, Process, done, raised, site_point, watch_point, write,
}
use building_a_debugger.Process.Sites.{create_breakpoint_site}
use building_a_debugger.Process.Sites.Invariant.{SitesValid}
use building_a_debugger.Process.Sites.Create.{create_breakpoint_site-SitesValid}
use building_a_debugger.Process.Watchpoints.{create_watchpoint}
use building_a_debugger.Process.Watchpoints.Data.{blank, counted, refreshed, create_watchpoint_lem}
use building_a_debugger.Process.Hardware.{find_free_stoppoint_register}
use building_a_debugger.Process.Hardware.Free.{FirstFree, find_free_stoppoint_register-FirstFree}
use building_a_debugger.Process.StopReason.{stop_reason, plain_reason}
use building_a_debugger.Process.Stops.Status.{stop_reason_lem}
use building_a_debugger.Tests.Machine.{env, laws, process}

two_one : pos 2 ≡ pos 1 → ⊥
two_one e = ground arith

pub process-SitesValid : SitesValid process
process-SitesValid = (
  ((((λ e. absurd (omega (arith, e))), inr two_one), tt), (tt, tt)),
  (inr (1, refl, omega arith), (inr (2, refl, omega arith), tt)),
)

create_breakpoint_site-SitesValid_example :
    (create_breakpoint_site env 60 false false process ≡ raised already_created process)
    ⊎ ((q : Process (ℕ → ℕ)) × (create_breakpoint_site env 60 false false process
          ≡ done (length process.breakpoint_sites) q)
        × SitesValid q
        × (find_by_address 60 q.breakpoint_sites ≡ some (length process.breakpoint_sites)))
create_breakpoint_site-SitesValid_example =
    create_breakpoint_site-SitesValid env 60 false false process process-SitesValid

find_free_stoppoint_register-FirstFree_example :
    FirstFree 4 0 0x50005 (find_free_stoppoint_register 0x50005)
find_free_stoppoint_register-FirstFree_example = find_free_stoppoint_register-FirstFree 0x50005

stop_reason_lem_example :
    (stop_reason (256 * 3) ≡ some (plain_reason exited 3))
    × (stop_reason (11 + 128 * 1) ≡ some (plain_reason terminated 11))
    × (stop_reason (127 + 256 * 5) ≡ some (plain_reason stopped 5))
stop_reason_lem_example =
    stop_reason_lem 3 11 1 5 (omega arith) (omega arith) (omega arith) (omega arith) (omega arith)

create_watchpoint_lem_example :
    if contains_address 24 process.watchpoints
    then create_watchpoint env 24 write (2 ^ 2) process ≡ raised already_created process
    else if 24 % 2 ^ 2 == 0
    then ((create_watchpoint env 24 write (2 ^ 2) process
          ≡ raised could_not_read_memory (counted env process))
        ⊎ (create_watchpoint env 24 write (2 ^ 2) process
            ≡ done (length process.watchpoints) (record (counted env process) {
              watchpoints =
                  push
                    (refreshed env laws (blank env 24 write (2 ^ 2) process) process)
                    process.watchpoints;
            })))
    else (create_watchpoint env 24 write (2 ^ 2) process ≡ raised not_aligned process)
create_watchpoint_lem_example =
    create_watchpoint_lem env laws 24 2 write process (omega arith) (omega arith)
