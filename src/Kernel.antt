-- ===== src/Kernel.antt =====
-- The kernel's side of ptrace, process_vm_readv and waitpid, as src/process.cpp, breakpoint_site.cpp
-- and registers.cpp use it: a parameter of the model. `K` is the state of the traced process;
-- `none` is the error return, on which the caller throws.
use building_a_debugger.Common.{
  ℕ, zero, suc, ◌+◌, ◌/◌, ◌^◌, ◌<◌, ◌≤◌, ◌≡◌, Bool, true, false, List, [], ◌∷◌, ◌++◌, ◌&&◌, leb,
  if◌then◌else◌, Option, none, some,
}
use building_a_debugger.Common.Bytes.{as_bytes}

pub record Kernel (K : Type 0) : Type 0 where
  -- PTRACE_PEEKDATA and PTRACE_POKEDATA: the 8 bytes at an address, as one integer.
  pub peek_data : ℕ → K → Option ℕ
  pub poke_data : ℕ → ℕ → K → Option K
  -- process_vm_readv: the bytes transferred from the remote ranges (address, length), in order.
  pub vm_read : List (ℕ × ℕ) → K → Option (List ℕ)
  -- PTRACE_PEEKUSER and PTRACE_POKEUSER: 8 bytes of the user area.
  pub peek_user : ℕ → K → Option ℕ
  pub poke_user : ℕ → ℕ → K → Option K
  -- PTRACE_GETREGS, PTRACE_GETFPREGS and PTRACE_SETFPREGS. The copy of the user area is a function
  -- from offsets to bytes; the first two return it with their member filled.
  pub get_regs : (ℕ → ℕ) → K → Option (ℕ → ℕ)
  pub get_fpregs : (ℕ → ℕ) → K → Option (ℕ → ℕ)
  pub set_fpregs : (ℕ → ℕ) → K → Option K
  pub single_step : K → Option K
  pub continue_process : K → Option K
  pub continue_to_syscall : K → Option K
  -- waitpid: the wait status.
  pub wait_pid : K → Option (ℕ × K)
  -- PTRACE_GETSIGINFO: si_code.
  pub signal_code : K → Option ℕ

-- The bytes from an address on.
abbrev pub bytes_at : (ℕ → ℕ) → ℕ → ℕ → List ℕ
bytes_at memory a zero = []
bytes_at memory a (suc n) = memory a ∷ bytes_at memory (a + 1) n

-- The bytes of several ranges.
abbrev pub bytes_of_ranges : (ℕ → ℕ) → List (ℕ × ℕ) → List ℕ
bytes_of_ranges memory [] = []
bytes_of_ranges memory ((a, n) ∷ ranges) = bytes_at memory a n ++ bytes_of_ranges memory ranges

abbrev pub total : List (ℕ × ℕ) → ℕ
total [] = 0
total ((a, n) ∷ ranges) = n + total ranges

-- Memory after the bytes of a list are written from an address on.
abbrev pub write_bytes : (ℕ → ℕ) → ℕ → List ℕ → ℕ → ℕ
write_bytes memory a [] b = memory b
write_bytes memory a (v ∷ vs) b = if leb a b && leb b a then v else write_bytes memory (a + 1) vs b

-- Whether all bytes of a range can be read.
unfoldable pub is_readable : (ℕ → Bool) → ℕ → ℕ → Bool
is_readable readable a zero = true
is_readable readable a (suc n) = readable a && is_readable readable (a + 1) n

-- The bytes of the ranges up to the first that cannot be read as a whole.
unfoldable pub transferred : (ℕ → ℕ) → (ℕ → Bool) → List (ℕ × ℕ) → List ℕ
unfolding is_readable
transferred memory readable [] = []
transferred memory readable ((a, n) ∷ ranges) =
    let rest = transferred memory readable ranges in
    if is_readable readable a n then bytes_at memory a n ++ rest else []

-- What ptrace(2) and process_vm_readv(2) say of memory: a successful peek returns the 8 bytes at
-- the address in little-endian order, and a successful poke changes those 8 bytes only. Whether a
-- byte can be read is a matter of its page, which a poke does not change. A transfer fails if its
-- first range cannot be read, and otherwise returns the bytes of the ranges up to the first that
-- cannot be: transfers are cut short between ranges, never inside one. Each byte is below 256.
pub record MemoryLaws {K : Type 0} (k : Kernel K) : Type 0 where
  pub memory : K → ℕ → ℕ
  pub memory-lt : (s : K) (a : ℕ) → memory s a < 256
  pub readable : K → ℕ → Bool
  pub readable-page : (s : K) (a b : ℕ) → a / 4096 ≡ b / 4096 → readable s a ≡ readable s b
  pub peek_data-memory :
      (a : ℕ) (s : K) (w : ℕ) → k.peek_data a s ≡ some w → as_bytes 8 w ≡ bytes_at (memory s) a 8
  pub peek_data-lt : (a : ℕ) (s : K) (w : ℕ) → k.peek_data a s ≡ some w → w < 2 ^ 64
  pub poke_data-memory :
      (a w : ℕ) (s t : K)
      → k.poke_data a w s ≡ some t
      → (b : ℕ) → memory t b ≡ write_bytes (memory s) a (as_bytes 8 w) b
  pub poke_data-readable :
      (a w : ℕ) (s t : K) → k.poke_data a w s ≡ some t → (b : ℕ) → readable t b ≡ readable s b
  pub vm_read-transferred :
      (ranges : List (ℕ × ℕ)) (s : K) (bytes : List ℕ)
      → k.vm_read ranges s ≡ some bytes
      → bytes ≡ transferred (memory s) (readable s) ranges
  pub vm_read-fault :
      (a n : ℕ) (ranges : List (ℕ × ℕ)) (s : K)
      → is_readable (readable s) a n ≡ false
      → k.vm_read ((a, n) ∷ ranges) s ≡ none

-- All bytes from an address up to another can be read.
abbrev pub ReadableIn : (ℕ → Bool) → ℕ → ℕ → Type 0
ReadableIn readable low high = (a : ℕ) → low ≤ a → a < high → readable a ≡ true
