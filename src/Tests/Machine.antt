-- ===== src/Tests/Machine.antt =====
-- A kernel that keeps the laws of memory: its state is a function from addresses to numbers, of
-- which memory shows the low bytes. All of it can be read, and no request fails.
use building_a_debugger.Common.{
  ℕ, zero, suc, ◌++◌, ◌+◌, ◌%◌, ◌^◌, ◌<◌, ◌≡◌, refl, sym, ap, ◌∙◌, Bool, true, false, List, [], ◌∷◌,
  arith, subst, ◌==◌, All, none, some, if◌then◌else◌,
}
use building_a_debugger.Common.Int.{pos}
use building_a_debugger.Common.Bytes.{
  IsByte, from_bytes, as_bytes, as_bytes-IsByte, as_bytes-from_bytes, from_bytes-lt,
}
use building_a_debugger.Kernel.{
  Kernel, bytes_at, bytes_of_ranges, write_bytes, MemoryLaws, is_readable, transferred,
}
use building_a_debugger.Process.Memory.Bytes.{bytes_at-IsByte}
use building_a_debugger.Process.Memory.Chunks.{length-bytes_at}
use building_a_debugger.Process.State.{
  stopped, catch_none, Process, Env, BreakpointSite, Outcome, done, raised, aborted, unspecified,
}

abbrev pub shown : (ℕ → ℕ) → ℕ → ℕ
shown s a = s a % 256

abbrev pub machine : Kernel (ℕ → ℕ)
machine = record {
  peek_data = λ a s. some (from_bytes (bytes_at (shown s) a 8));
  poke_data = λ a w s. some (write_bytes (shown s) a (as_bytes 8 w));
  vm_read = λ ranges s. some (bytes_of_ranges (shown s) ranges);
  peek_user = λ a s. some 0;
  poke_user = λ a w s. some s;
  get_regs = λ user s. some user;
  get_fpregs = λ user s. some user;
  set_fpregs = λ user s. some s;
  single_step = λ s. some s;
  continue_process = λ s. some s;
  continue_to_syscall = λ s. some s;
  wait_pid = λ s. some (0, s);
  signal_code = λ s. some 0;
}

abbrev pub env : Env (ℕ → ℕ)
env = record {
  kernel = machine;
  layout = record {
    gpr_offset = λ name. 0;
    fpr_offset = λ name. 224;
    fpr_size = λ name. 2;
    st_space = 256;
    xmm_space = 384;
    debug_registers = 848;
  };
  casts = record { to_double = λ bs. bs; to_long_double = λ bs. bs };
}

pub shown_written :
    (s : ℕ → ℕ) (a : ℕ) (bs : List ℕ)
    → All IsByte bs
    → (b : ℕ) → write_bytes (shown s) a bs b % 256 ≡ write_bytes (shown s) a bs b
shown_written s a [] h b = omega arith
shown_written s a (v ∷ vs) h b = ground (arith, h.0, shown_written s (a + 1) vs h.1 b)

pub readable_all : (a n : ℕ) → is_readable (λ b. true) a n ≡ true
unfolding is_readable
readable_all a zero = refl
readable_all a (suc n) = readable_all (a + 1) n

pub readable_never : (a n : ℕ) → is_readable (λ b. true) a n ≡ false → ⊥
readable_never a n e = cc (readable_all a n)

pub transferred_all :
    (m : ℕ → ℕ) (ranges : List (ℕ × ℕ))
    → bytes_of_ranges m ranges ≡ transferred m (λ a. true) ranges
unfolding transferred
transferred_all m [] = refl
transferred_all m ((a, n) ∷ ranges) =
    rw (readable_all a n) (ap (λ bs. bytes_at m a n ++ bs) (transferred_all m ranges))

pub some_injective : {A : Type 0} (a b : A) → some a ≡ some b → a ≡ b
some_injective a b h = cc

shown-IsByte : (s : ℕ → ℕ) (a n : ℕ) → All IsByte (bytes_at (shown s) a n)
shown-IsByte s a n = bytes_at-IsByte (shown s) (λ b. omega arith) a n

pub peeked :
    (s : ℕ → ℕ) (a n : ℕ)
    → as_bytes n (from_bytes (bytes_at (shown s) a n)) ≡ bytes_at (shown s) a n
peeked s a n =
    ap (λ k. as_bytes k (from_bytes (bytes_at (shown s) a n))) (sym (length-bytes_at (shown s) a n))
    ∙ as_bytes-from_bytes (bytes_at (shown s) a n) (shown-IsByte s a n)

pub peeked_lt : (s : ℕ → ℕ) (a n : ℕ) → from_bytes (bytes_at (shown s) a n) < 256 ^ n
peeked_lt s a n =
    subst (λ k. from_bytes (bytes_at (shown s) a n) < 256 ^ k) (length-bytes_at (shown s) a n)
      (from_bytes-lt (bytes_at (shown s) a n) (shown-IsByte s a n))

abbrev pub laws : MemoryLaws machine
laws = record {
  memory = shown;
  memory-lt = λ s a. omega arith;
  peek_data-memory = λ a s w h.
      ap (as_bytes 8) (sym (some_injective (from_bytes (bytes_at (shown s) a 8)) w h))
      ∙ peeked s a 8;
  peek_data-lt = λ a s w h.
      subst (λ t. t < 2 ^ 64) (some_injective (from_bytes (bytes_at (shown s) a 8)) w h)
        (peeked_lt s a 8);
  poke_data-memory = λ a w s t h b.
      ap (λ k. k b % 256) (sym (some_injective (write_bytes (shown s) a (as_bytes 8 w)) t h))
      ∙ shown_written s a (as_bytes 8 w) (as_bytes-IsByte 8 w) b;
  readable = λ s a. true;
  readable-page = λ s a b e. refl;
  poke_data-readable = λ a w s t h b. refl;
  vm_read-transferred = λ ranges s bytes h.
      sym (some_injective (bytes_of_ranges (shown s) ranges) bytes h)
      ∙ transferred_all (shown s) ranges;
  vm_read-fault = λ a n ranges s e. absurd (readable_never a n e);
}

-- Memory holds the low byte of each address. Two sites: one that is enabled at 20, one off at 40.
abbrev pub program : ℕ → ℕ
program a = a % 256

abbrev pub site : ℕ → ℕ → Bool → BreakpointSite
site n address on = record {
  id = pos n;
  address = address;
  is_enabled = on;
  saved_data = address % 256;
  is_hardware = false;
  is_internal = false;
  hardware_register_index = none;
}

abbrev pub process : Process (ℕ → ℕ)
process = record {
  kernel_state = λ a. if a == 20 then 0xcc else a;
  user = λ a. 0;
  is_attached = true;
  expecting_syscall_exit = false;
  state = stopped;
  breakpoint_sites = site 1 20 true ∷ site 2 40 false ∷ [];
  watchpoints = [];
  policy = record { mode = catch_none; to_catch = [] };
  last_site_id = 2;
  last_watchpoint_id = 0;
}

-- A kernel that reports an int3 at 20, behind which the program counter stands.
abbrev pub trap_env : Env (ℕ → ℕ)
trap_env = record env {
  kernel = record machine {
    wait_pid = λ s. some (0x057f, s);
    signal_code = λ s. some 0x80;
    get_regs = λ user s. some (λ a. if a == 0 then 21 else 0);
  };
}

-- The state that an operation leaves.
unfoldable pub state_of : Outcome (Process (ℕ → ℕ)) (Unit {0}) → Process (ℕ → ℕ)
state_of (done u q) = q
state_of (raised e q) = q
state_of aborted = process
state_of unspecified = process
