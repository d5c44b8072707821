-- ===== src/Cli/Invariant.antt =====
-- Sessions of the command line of src/tools/sdb.cpp and the breakpoint sites of their process.
use building_a_debugger.Common.{ℕ, subst, sym, inl, inr, Bool, false, List}
use building_a_debugger.Common.Int.{pos}
use building_a_debugger.Process.State.{Env}
use building_a_debugger.Process.Always.{Always}
use building_a_debugger.Process.Sites.{create_breakpoint_site, enable_site}
use building_a_debugger.Process.Sites.Invariant.{SitesValid}
use building_a_debugger.Process.Sites.Create.{create_breakpoint_site-SitesValid, sites-SitesValid}
use building_a_debugger.Process.Frame.{Framed, Keeps, bind-Keeps}
use building_a_debugger.Cli.{Session}
use building_a_debugger.Cli.Values.{FloatReader}
use building_a_debugger.Cli.Sites.{create_and_enable_site}
use building_a_debugger.Cli.Stops.{Tools}
use building_a_debugger.Cli.Loop.{main_loop}
use building_a_debugger.Cli.Frame.{OfProcess}
use building_a_debugger.Cli.Frame.Points.{SiteOperations}
use building_a_debugger.Cli.Frame.Loop.{main_loop-Keeps}

pub SitesValid-Framed : {K : Type 0} → Framed {K = K} SitesValid
SitesValid-Framed = record {
  with_kernel = λ p i k. i;
  with_user = λ p i u. i;
  with_expecting = λ p i b. i;
  with_state = λ p i s. i;
  with_watchpoints = λ p i ws. i;
  with_policy = λ p i c. i;
  with_count = λ p i n. i;
}

module _ {K : Type 0} (env : Env K) where
  create_breakpoint_site-Keeps :
      (address : ℕ) (hardware internal : Bool)
      → Keeps SitesValid (create_breakpoint_site env address hardware internal)
  create_breakpoint_site-Keeps address hardware internal p valid =
      elim (create_breakpoint_site-SitesValid env address hardware internal p valid) [
        | inl e ↦ subst (Always SitesValid) (sym e) valid
        | inr (q, e, kept, found) ↦ subst (Always SitesValid) (sym e) kept
      ]

  create_and_enable_site-Keeps :
      (address : ℕ) (hardware : Bool)
      → Keeps SitesValid (create_and_enable_site env address hardware)
  unfolding create_and_enable_site
  create_and_enable_site-Keeps address hardware =
      bind-Keeps SitesValid (create_breakpoint_site env address hardware false) (enable_site env)
        (create_breakpoint_site-Keeps address hardware false)
        (λ i p valid. (sites-SitesValid env i (pos 0) 0 p valid).0)

  pub site_operations : SiteOperations env SitesValid
  site_operations = record {
    enables = λ i p valid. (sites-SitesValid env i (pos 0) 0 p valid).0;
    disables = λ i p valid. (sites-SitesValid env i (pos 0) 0 p valid).1;
    removes = λ id p valid. (sites-SitesValid env 0 id 0 p valid).2;
    creates = create_and_enable_site-Keeps;
  }

  -- Whatever lines are typed, and whatever the kernel answers, a session that starts with sites that
  -- stand apart (no two at an address, no two with an id other than -1, no id beyond the counter)
  -- leaves them so where the loop comes to the end of the input: the sites of the process are
  -- changed by breakpoint commands, and by the steps over them in `continue` and `step`, with the
  -- errors that the loop prints on the way.
  pub main_loop-SitesValid :
      (tools : Tools) (floats : FloatReader) (fuel : ℕ) (lines history : List (List ℕ))
      (s : Session K)
      → SitesValid s.process
      → Always (OfProcess SitesValid) (main_loop env tools floats fuel lines history s)
  main_loop-SitesValid tools floats fuel lines history =
      main_loop-Keeps env tools floats fuel SitesValid SitesValid-Framed site_operations lines
        history
