-- ===== src/Process/Frame.antt =====
-- Invariants of a process that look only at its breakpoint sites and their counter: what the
-- operations that leave these alone do to them.
pub mod Memory
pub mod Watchpoints
pub mod Stops
pub mod Waiting
use building_a_debugger.Common.{
  ℕ, zero, suc, ◌+◌, Bool, true, false, ◌==◌, Option, none, some, Error, Run, if◌then◌else◌, leb,
  length, get_elem?, List,
}
use building_a_debugger.Common.Int.{ℤ}
use building_a_debugger.Registers.{Value, read_by_id_as_u64, u64_value, store_register}
use building_a_debugger.Registers.Table.{
  RegisterInfo, RegisterType, register_info_by_id, id_dr0, id_dr7,
}
use building_a_debugger.Process.State.{
  Process, ProcessState, Watchpoint, SyscallCatchPolicy, StoppointMode, Env, Outcome, unspecified,
  ◌>>=◌, pure, get, modify, lift, ask, tell,
}
use building_a_debugger.Process.Always.{
  Always, >>=-Always, if-Always_at, if-Always, lift-Always, ask-Always, tell-Always,
}
use building_a_debugger.Process.Registers.{
  read_by_id, write_by_id, write_register, flush_register, flush_as, poke_word, read_all_registers,
  read_debug_registers,
}

-- Whatever becomes of the other members, the invariant holds on.
pub record Framed {K : Type 0} (I : Process K → Type 0) : Type 0 where
  pub with_kernel : (p : Process K) → I p → (k : K) → I (record p { kernel_state = k })
  pub with_user : (p : Process K) → I p → (u : ℕ → ℕ) → I (record p { user = u })
  pub with_expecting :
      (p : Process K) → I p → (b : Bool) → I (record p { expecting_syscall_exit = b })
  pub with_state : (p : Process K) → I p → (s : ProcessState) → I (record p { state = s })
  pub with_watchpoints :
      (p : Process K) → I p → (ws : List Watchpoint) → I (record p { watchpoints = ws })
  pub with_policy : (p : Process K) → I p → (c : SyscallCatchPolicy) → I (record p { policy = c })
  pub with_count : (p : Process K) → I p → (n : ℕ) → I (record p { last_watchpoint_id = n })

-- The operation keeps an invariant, whether it returns or throws.
abbrev pub Keeps : {S A : Type 0} → (S → Type 0) → (S → Outcome S A) → Type 0
Keeps {S} I m = (s : S) → I s → Always I (m s)

module _ {S : Type 0} (I : S → Type 0) where
  pub bind-Keeps :
      {A B : Type 0} (m : S → Outcome S A) (f : A → S → Outcome S B)
      → Keeps I m
      → ((a : A) → Keeps I (f a))
      → Keeps I (m >>= f)
  bind-Keeps m f h k s i = >>=-Always I m f s (h s i) (λ a q j. k a q j)

  pub if-Keeps :
      {A : Type 0} (b : Bool) (m n : S → Outcome S A)
      → Keeps I m
      → Keeps I n
      → Keeps I (if b then m else n)
  if-Keeps b m n h k s i = if-Always_at I b m n s (h s i) (k s i)

  -- What follows an optional result.
  pub optional-Keeps :
      {A B : Type 0} (o : Option A) (m : S → Outcome S B) (f : A → S → Outcome S B)
      → Keeps I m
      → ((a : A) → Keeps I (f a))
      → Keeps I (elim o [ none ↦ m | some a ↦ f a ])
  optional-Keeps none m f h k s i = h s i
  optional-Keeps (some a) m f h k s i = k a s i

  pub lift-Keeps : {A : Type 0} (r : Run A) → Keeps I (lift r)
  lift-Keeps r s i = lift-Always I r s i

  pub pure-Keeps : {A : Type 0} (a : A) → Keeps I (pure a)
  pure-Keeps a s i = i

  pub get-Keeps : Keeps I get
  get-Keeps s i = i

module _ {K : Type 0} (env : Env K) (I : Process K → Type 0) (framed : Framed I) where
  pub ask-Keeps : {A : Type 0} (request : K → Option A) (e : Error) → Keeps I (ask request e)
  ask-Keeps request e p i = ask-Always I request e p i

  pub tell-Keeps : (request : K → Option K) (e : Error) → Keeps I (tell request e)
  tell-Keeps request e p i = tell-Always I request e p i (λ t. framed.with_kernel p i t)

  -- The kernel's side after a wait.
  pub with_kernel-Keeps : (k : K) → Keeps I (modify (λ p. record p { kernel_state = k }))
  with_kernel-Keeps k p i = framed.with_kernel p i k

  pub read_by_id-Keeps : (id : ℕ) → Keeps I (read_by_id env id)
  unfolding read_by_id
  read_by_id-Keeps id p i = lift-Always I (read_by_id_as_u64 env.layout id p.user) p i

  flush_as-Keeps : (t : RegisterType) (info : RegisterInfo) → Keeps I (flush_as env t info)
  unfolding flush_as
  flush_as-Keeps RegisterType.gpr info p i = tell-Keeps (poke_word env info p) _ p i
  flush_as-Keeps RegisterType.sub_gpr info p i = tell-Keeps (poke_word env info p) _ p i
  flush_as-Keeps RegisterType.fpr info p i = tell-Keeps (env.kernel.set_fpregs p.user) _ p i
  flush_as-Keeps RegisterType.dr info p i = tell-Keeps (poke_word env info p) _ p i

  pub write_register-Keeps : (info : RegisterInfo) (v : Value) → Keeps I (write_register env info v)
  unfolding write_register flush_register
  write_register-Keeps info v p i =
      let user = store_register env.casts info v p.user in
      if-Always I (leb (length v.bytes) info.size) _ _
        (flush_as-Keeps info.type info (record p { user = user }) (framed.with_user p i user)) tt

  pub write_by_id-Keeps : (id value : ℕ) → Keeps I (write_by_id env id value)
  unfolding write_by_id
  write_by_id-Keeps id value =
      bind-Keeps I (lift (register_info_by_id env.layout id)) _
        (lift-Keeps I (register_info_by_id env.layout id))
        (λ info. write_register-Keeps info (u64_value value))

  read_debug_registers-Keeps : (left i : ℕ) → Keeps I (read_debug_registers env left i)
  unfolding read_debug_registers
  read_debug_registers-Keeps zero n = pure-Keeps I tt
  read_debug_registers-Keeps (suc left) n =
      bind-Keeps I (lift (register_info_by_id env.layout (id_dr0 + n))) _
        (lift-Keeps I (register_info_by_id env.layout (id_dr0 + n)))
        λ info.
          bind-Keeps I (ask (env.kernel.peek_user info.offset) _) _
            (ask-Keeps (env.kernel.peek_user info.offset) _)
            λ w.
              bind-Keeps I (modify _) _ (λ p i. framed.with_user p i _)
                λ u. read_debug_registers-Keeps left (n + 1)

  pub read_all_registers-Keeps : Keeps I (read_all_registers env)
  unfolding read_all_registers
  read_all_registers-Keeps = bind-Keeps I get _ (get-Keeps I) λ p.
      bind-Keeps I (ask (env.kernel.get_regs p.user) _) _ (ask-Keeps (env.kernel.get_regs p.user) _)
        λ regs.
          bind-Keeps I (ask (env.kernel.get_fpregs regs) _) _
            (ask-Keeps (env.kernel.get_fpregs regs) _)
            λ fpregs.
              bind-Keeps I (modify _) _ (λ q i. framed.with_user q i fpregs)
                λ u. read_debug_registers-Keeps 8 0
