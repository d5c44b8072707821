-- ===== src/Launch/Sessions.antt =====
-- Sessions on a process that was launched or attached to.
use building_a_debugger.Common.{
  ℕ, ◌≡◌, subst, ◌⊎◌, inl, inr, child_failed, Bool, true, false, Run, ok, throws, undefined, List,
  [], ◌∷◌, Option, none, some, if◌then◌else◌,
}
use building_a_debugger.Common.Int.{ℤ, pos, negsuc, ◌==ℤ◌}
use building_a_debugger.Process.State.{Process, Env, Outcome, done, raised, aborted, unspecified}
use building_a_debugger.Process.Always.{Always}
use building_a_debugger.Process.Stops.{wait_on_signal}
use building_a_debugger.Process.Sites.Invariant.{SitesValid}
use building_a_debugger.Process.Frame.{Keeps, bind-Keeps, tell-Keeps}
use building_a_debugger.Process.Frame.Waiting.{wait_on_signal-Keeps}
use building_a_debugger.Cli.Values.{FloatReader}
use building_a_debugger.Cli.Loop.{main_loop}
use building_a_debugger.Cli.Frame.{OfProcess}
use building_a_debugger.Cli.Invariant.{SitesValid-Framed, site_operations, main_loop-SitesValid}
use building_a_debugger.Disassembler.{Decoder}
use building_a_debugger.Elf.{Elf}
use building_a_debugger.Launch.Target.{
  Target, get_auxiliary_vector, create_target, launch_target, attach_target,
}
use building_a_debugger.Launch.{
  System, Owned, Forked, new_process, run_child, end_process, holding, wait_and_set_options,
  hold_launched, run_parent, launch, hold_attached, attach,
}

-- What is returned, if anything is, satisfies a predicate.
abbrev Returns : {K A : Type 0} → (A → Type 0) → Outcome K A → Type 0
Returns P (done a k) = P a
Returns P (raised e k) = Unit {0}
Returns P aborted = Unit {0}
Returns P unspecified = Unit {0}

abbrev Held : {K : Type 0} → Owned K → Type 0
Held o = SitesValid o.process

module _ {K : Type 0} where
  if-Returns :
      (b : Bool) (m n : Outcome K (Owned K))
      → Returns Held m
      → Returns Held n
      → Returns Held (if b then m else n)
  if-Returns true m n h k = h
  if-Returns false m n h k = k

  option-Returns :
      {A : Type 0} (o : Option A) (m : Outcome K (Owned K)) (f : A → Outcome K (Owned K))
      → Returns Held m
      → ((a : A) → Returns Held (f a))
      → Returns Held (elim o [ none ↦ m | some a ↦ f a ])
  option-Returns none m f h k = h
  option-Returns (some a) m f h k = k a

  list-Returns :
      {A : Type 0} (xs : List A) (m : Outcome K (Owned K)) (f : A → List A → Outcome K (Owned K))
      → Returns Held m
      → ((b : A) (bs : List A) → Returns Held (f b bs))
      → Returns Held (elim xs [ [] ↦ m | b ∷ bs ↦ f b bs ])
  list-Returns [] m f h k = h
  list-Returns (b ∷ bs) m f h k = k b bs

  run-Returns :
      {A B : Type 0} (P : B → Type 0) (r : Run A) (k : K) (f : A → Outcome K B)
      → ((a : A) → Returns P (f a))
      → Returns P (elim r [ undefined ↦ unspecified | throws e ↦ raised e k | ok a ↦ f a ])
  run-Returns P (ok a) k f h = h a
  run-Returns P (throws e) k f h = tt
  run-Returns P undefined k f h = tt

module _ {K : Type 0} (system : System K) (env : ℤ → Env K) (fuel : ℕ) (unset : ℕ → ℕ) where
  holding-Returns :
      (o : Owned K) (m : Outcome (Process K) (Unit {0}))
      → Always SitesValid m
      → Returns Held (holding system o m)
  holding-Returns o (done a p) h = h
  holding-Returns o (raised e p) h = tt
  holding-Returns o aborted h = tt
  holding-Returns o unspecified h = tt

  wait_and_set_options-Keeps :
      (pid : ℤ) → Keeps SitesValid (wait_and_set_options system env fuel unset pid)
  wait_and_set_options-Keeps pid =
      bind-Keeps SitesValid (wait_on_signal (env pid) fuel) _
        (wait_on_signal-Keeps (env pid) SitesValid SitesValid-Framed
          (site_operations (env pid)).enables (site_operations (env pid)).disables fuel)
        λ reason. tell-Keeps (env pid) SitesValid SitesValid-Framed (system.set_options pid) _

  hold_launched-Returns :
      (debug : Bool) (pid : ℤ) (k : K)
      → Returns Held (hold_launched system env fuel unset debug pid k)
  unfolding hold_launched new_process
  hold_launched-Returns true pid k =
      let o = new_process unset pid true true k in
      holding-Returns o _ (wait_and_set_options-Keeps pid o.process (tt, tt))
  hold_launched-Returns false pid k = (tt, tt)

  run_parent-Returns :
      (debug : Bool) (pid : ℤ) (forked : Forked K)
      → Returns Held (run_parent system env fuel unset debug pid forked)
  unfolding run_parent
  run_parent-Returns debug pid forked =
      option-Returns (system.read_pipe forked.written) _ _ tt λ read.
        list-Returns read (hold_launched system env fuel unset debug pid forked.system)
          (λ c cs. raised (child_failed (c ∷ cs)) (system.reap pid forked.system))
          (hold_launched-Returns debug pid forked.system) (λ c cs. tt)

  launch-Returns :
      (path : List ℕ) (debug : Bool) (stdout_replacement : Option ℕ) (k : K)
      → Returns Held (launch system env fuel unset path debug stdout_replacement k)
  unfolding launch
  launch-Returns path debug stdout_replacement k =
      option-Returns (system.make_pipe k) _ _ tt λ piped.
        option-Returns (system.fork piped) _ _ (run_parent-Returns debug (negsuc 0) _)
          λ (pid, forked).
            run_parent-Returns debug (pos pid)
              (run_child system path debug stdout_replacement forked)

  attach-Returns : (pid : ℤ) (k : K) → Returns Held (attach system env fuel unset pid k)
  unfolding attach hold_attached new_process
  attach-Returns pid k = if-Returns (pid ==ℤ pos 0) _ _ tt (
      option-Returns (system.attach pid k) _ _ tt λ t.
        let o = new_process unset pid false true t in
        holding-Returns o _ (wait_and_set_options-Keeps pid o.process (tt, tt)))

  create_target-Returns :
      (opened : Run Elf) (o : Owned K) (k : K)
      → Held o
      → Returns (λ t. Held t.owner) (create_target system opened o k)
  unfolding create_target
  create_target-Returns opened o k held =
      run-Returns (λ t. Held t.owner) (get_auxiliary_vector (system.auxiliary_words o.pid k))
        (end_process system o) _
        λ pairs. run-Returns (λ t. Held t.owner) opened (end_process system o) _ λ elf. held

  then_target-Returns :
      (opened : Run Elf) (m : Outcome K (Owned K))
      → Returns Held m
      → Returns
          (λ t. Held t.owner)
          (elim m [
            | done o k ↦ create_target system opened o k
            | raised e k ↦ raised e k
            | aborted ↦ aborted
            | unspecified ↦ unspecified
          ])
  then_target-Returns opened (done o k) h = create_target-Returns opened o k h
  then_target-Returns opened (raised e k) h = tt
  then_target-Returns opened aborted h = tt
  then_target-Returns opened unspecified h = tt

  target-Returns :
      (path : List ℕ) (stdout_replacement : Option ℕ) (pid : ℤ) (opened : Run Elf) (k : K)
      → Returns
          (λ t. Held t.owner)
          (launch_target system env fuel unset path stdout_replacement opened k)
        × Returns (λ t. Held t.owner) (attach_target system env fuel unset pid opened k)
  unfolding launch_target attach_target
  target-Returns path stdout_replacement pid opened k = (
    then_target-Returns opened (launch system env fuel unset path true stdout_replacement k)
        (launch-Returns path true stdout_replacement k),
    then_target-Returns opened (attach system env fuel unset pid k) (attach-Returns pid k),
  )

  -- Of a target that Target::Launch or Target::Attach has returned, whatever program it is and
  -- whatever the system and the kernel answered: over every session of the command loop the sites of
  -- its process stand apart (no two at an address, no two with an id other than -1, no id beyond the
  -- counter), where the loop comes to the end of the input.
  pub session-SitesValid :
      (path : List ℕ) (stdout_replacement : Option ℕ) (pid : ℤ) (opened : Run Elf) (k l : K)
      (target : Target K) (decode : Decoder) (syscalls : List (List ℕ × ℤ)) (floats : FloatReader)
      (lines : List (List ℕ))
      → (launch_target system env fuel unset path stdout_replacement opened k ≡ done target l)
        ⊎ (attach_target system env fuel unset pid opened k ≡ done target l)
      → Always (OfProcess SitesValid) (
          main_loop
            (env target.owner.pid)
            (record { decode = decode; syscalls = syscalls; elf = target.elf })
            floats
            fuel
            lines
            []
            (record { process = target.owner.process; printed = [] }))
  session-SitesValid path stdout_replacement pid opened k l target decode syscalls floats lines h =
      let returns = target-Returns path stdout_replacement pid opened k in
      main_loop-SitesValid (env target.owner.pid)
        (record { decode = decode; syscalls = syscalls; elf = target.elf }) floats fuel lines []
        (record { process = target.owner.process; printed = [] })
        (elim h [
          | inl e ↦ subst (Returns (λ t. Held t.owner)) e returns.0
          | inr e ↦ subst (Returns (λ t. Held t.owner)) e returns.1
        ])
