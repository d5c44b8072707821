-- ===== src/Process/Stops/Syscall.antt =====
-- Process::AugmentStopReason of src/process.cpp, at system calls and at other stops.
use building_a_debugger.Common.{
  ℕ, ◌%◌, ◌^◌, ◌≡◌, ◌≢◌, refl, ap, inl, inr, Bool-cases, ==→eq, ==_false→ne, Bool, true, false, not,
  [], ◌∷◌, ◌==◌, if◌then◌else◌, some, ok,
}
use Prim.Native.String.{String}
use building_a_debugger.Common.Bytes.{from_bytes}
use building_a_debugger.Common.Int.{ℤ, pos, negsuc}
use building_a_debugger.Kernel.{bytes_at}
use building_a_debugger.Registers.{unsigned, read_register, read_uint, read_by_id_as_u64, get_u64}
use building_a_debugger.Registers.Table.{
  RegisterInfo, RegisterType, RegisterFormat, Layout, register_info_by_id, id_rax, id_orig_rax,
  id_rdi, id_rsi, id_rdx, id_r10, id_r8, id_r9,
}
use building_a_debugger.Registers.RoundTrip.{read_by_id_as_u64_found}
use building_a_debugger.Process.State.{
  TrapType, single_step, software_breakpoint, hardware_breakpoint, syscall, unknown,
  SyscallInformation, syscall_entry, syscall_exit, StopReason, Process, Env, done, ◌>>=◌, get,
  modify, ask, lift,
}
use building_a_debugger.Process.Registers.{read_by_id}
use building_a_debugger.Process.Stops.{read_arguments, syscall_information, augment_stop_reason}
use building_a_debugger.Process.StopReason.{trap_of_code, sigtrap, sigtrap_syscall}

-- The 64-bit register of a name in a copy of the user area.
abbrev pub register_in : Layout → (ℕ → ℕ) → String → ℕ
register_in l user name = from_bytes (bytes_at user (l.gpr_offset name) 8)

abbrev general : Layout → ℕ → String → ℤ → RegisterInfo
general l id name dwarf_id = record {
  id = id;
  name = name;
  dwarf_id = dwarf_id;
  size = 8;
  offset = l.gpr_offset name;
  type = RegisterType.gpr;
  format = RegisterFormat.uint;
}

value_in :
    (l : Layout) (id : ℕ) (name : String) (dwarf_id : ℤ) (user : ℕ → ℕ)
    → register_info_by_id l id ≡ ok (general l id name dwarf_id)
    → read_by_id_as_u64 l id user ≡ ok (register_in l user name)
unfolding read_register read_uint get_u64
value_in l id name dwarf_id user e =
    read_by_id_as_u64_found l id (general l id name dwarf_id) user
      (record { kind = unsigned; bytes = bytes_at user (l.gpr_offset name) 8 }) e refl

-- The trap that a code of SIGTRAP stands for: TRAP_TRACE, SI_KERNEL and TRAP_HWBKPT.
abbrev pub Names : ℕ → TrapType → Type 0
Names code single_step = code ≡ 2
Names code software_breakpoint = code ≡ 0x80
Names code hardware_breakpoint = code ≡ 4
Names code syscall = ⊥
Names code unknown = (code ≢ 2) × (code ≢ 0x80) × (code ≢ 4)

module _ {K : Type 0} (env : Env K) where
  -- What a register of the process reads as.
  abbrev pub value_of : String → Process K → ℕ
  value_of name p = register_in env.layout p.user name

  read_general :
      (id : ℕ) (name : String) (dwarf_id : ℤ) (p : Process K)
      → register_info_by_id env.layout id ≡ ok (general env.layout id name dwarf_id)
      → read_by_id env id p ≡ done (value_of name p) p
  unfolding read_by_id
  read_general id name dwarf_id p e =
      ap (λ r. lift r p) (value_in env.layout id name dwarf_id p.user e)

  -- The information of an entry with its six arguments, or of an exit with its value.
  abbrev pub information : Bool → Process K → SyscallInformation
  information true p = syscall_exit (value_of "orig_rax" p % 2 ^ 16) (value_of "rax" p)
  information false p = syscall_entry (value_of "orig_rax" p % 2 ^ 16) (
      value_of "rdi" p
      ∷ value_of "rsi" p
      ∷ value_of "rdx" p
      ∷ value_of "r10" p
      ∷ value_of "r8" p
      ∷ value_of "r9" p
      ∷ [])

  information_lem :
      (expecting : Bool) (p : Process K)
      → syscall_information env expecting p
        ≡ done (information expecting p) (record p { expecting_syscall_exit = not expecting })
  unfolding syscall_information read_arguments register_info_by_id
  information_lem true p =
      rw
        (
          ◌>>=◌,
          read_general id_orig_rax "orig_rax" (negsuc 0) p refl,
          read_general id_rax "rax" (pos 0) p refl,
          modify,
        )
        refl
  information_lem false p =
      rw
        (
          ◌>>=◌,
          read_general id_orig_rax "orig_rax" (negsuc 0) p refl,
          read_general id_rdi "rdi" (pos 5) p refl,
          read_general id_rsi "rsi" (pos 4) p refl,
          read_general id_rdx "rdx" (pos 1) p refl,
          read_general id_r10 "r10" (pos 10) p refl,
          read_general id_r8 "r8" (pos 8) p refl,
          read_general id_r9 "r9" (pos 9) p refl,
          modify,
        )
        refl

  at_syscall :
      (code : ℕ) (r : StopReason) (p : Process K)
      → env.kernel.signal_code p.kernel_state ≡ some code
      → r.info == sigtrap_syscall ≡ true
      → augment_stop_reason env r p
        ≡ done
            (record r {
              info = sigtrap;
              trap_reason = some syscall;
              syscall_info = some (information p.expecting_syscall_exit p);
            })
            (record p { expecting_syscall_exit = not p.expecting_syscall_exit })
  unfolding augment_stop_reason
  at_syscall code r p e f =
      rw (◌>>=◌, ask, e, get, f, information_lem p.expecting_syscall_exit p) refl

  at_other :
      (code : ℕ) (r : StopReason) (p : Process K)
      → env.kernel.signal_code p.kernel_state ≡ some code
      → r.info == sigtrap_syscall ≡ false
      → augment_stop_reason env r p
        ≡ done
            (record r {
              trap_reason = some (if r.info == sigtrap then trap_of_code code else unknown);
            })
            (record p { expecting_syscall_exit = false })
  unfolding augment_stop_reason
  at_other code r p e f = rw (◌>>=◌, ask, e, get, f, modify) refl

  trap_of_code-Names : (code : ℕ) → Names code (trap_of_code code)
  trap_of_code-Names code = elim (Bool-cases (code == 2)) [
    | inl e ↦ rw e (==→eq code 2 e)
    | inr e ↦ elim (Bool-cases (code == 0x80)) [
      | inl f ↦ rw (e, f) (==→eq code 0x80 f)
      | inr f ↦ elim (Bool-cases (code == 4)) [
        | inl g ↦ rw (e, f, g) (==→eq code 4 g)
        | inr g ↦ rw (e, f, g) (==_false→ne code 2 e, ==_false→ne code 0x80 f, ==_false→ne code 4 g)
      ]
    ]
  ]

  -- AugmentStopReason, once the kernel has given the signal's code, returns. At a system call it
  -- reports an exit with the value if an exit is expected, and an entry with the six arguments if
  -- not, with the registers' values, and then expects the other. At any other stop it expects an
  -- entry, and if the signal is SIGTRAP, number 5, it names a single step for the code 2, a software
  -- breakpoint for 0x80 and a hardware breakpoint for 4; for another code or another signal the trap
  -- is unknown. Nothing else changes.
  pub augment_stop_reason_lem :
      (code : ℕ) (r : StopReason) (p : Process K)
      → env.kernel.signal_code p.kernel_state ≡ some code
      → if r.info == 0x85
        then (augment_stop_reason env r p
            ≡ done
                (record r {
                  info = 5;
                  trap_reason = some syscall;
                  syscall_info = some (information p.expecting_syscall_exit p);
                })
                (record p { expecting_syscall_exit = not p.expecting_syscall_exit }))
        else ((trap : TrapType) × (if r.info == 5 then Names code trap else trap ≡ unknown)
            × (augment_stop_reason env r p
                ≡ done
                    (record r { trap_reason = some trap })
                    (record p { expecting_syscall_exit = false })))
  augment_stop_reason_lem code r p e = pick (r.info == 0x85) (at_syscall code r p e) (λ f. (
    if r.info == 5 then trap_of_code code else unknown,
    named (r.info == 5),
    at_other code r p e f,
  ))
    where
      pick : {A B : Type 0} (b : Bool) → (b ≡ true → A) → (b ≡ false → B) → if b then A else B
      pick true f g = f refl
      pick false f g = g refl

      named :
          (b : Bool)
          → let trap = if b then trap_of_code code else unknown in
            if b then Names code trap else trap ≡ unknown
      named true = trap_of_code-Names code
      named false = refl
