-- ===== src/Process/Memory.antt =====
-- Process::ReadMemory, ReadMemoryWithoutTraps and WriteMemory of src/process.cpp.
pub mod Bytes
pub mod Chunks
pub mod Reads
pub mod Writes
pub mod Loop
pub mod Traps
pub mod Region
use building_a_debugger.Common.{
  ℕ, zero, suc, ◌+◌, ◌-◌, ◌*◌, ◌/◌, ◌%◌, ◌^◌, min, bit_and, Bool, true, false, not, ◌&&◌, ◌||◌,
  List, [], ◌∷◌, ◌++◌, leb, ltb, ◌==◌, if◌then◌else◌, length, take, drop, set, Option, none, some,
  could_not_read_memory, failed_to_write_memory,
}
use building_a_debugger.Common.Bytes.{from_bytes}
use building_a_debugger.Address.{add64, sub64}
use building_a_debugger.Registers.{pad}
use building_a_debugger.Stoppoints.{get_in_region}
use building_a_debugger.Process.State.{
  BreakpointSite, Process, Env, Outcome, done, raised, aborted, unspecified, ◌>>=◌, ◌>>◌, get, ask,
  tell, pure, site_point,
}

-- The while loop of ReadMemory: the remote ranges, split at the 4 KiB pages. Every round takes a
-- byte at least, so as many rounds as bytes are enough.
unfoldable pub remote_ranges : ℕ → ℕ → ℕ → List (ℕ × ℕ)
remote_ranges zero amount address = []
remote_ranges (suc fuel) amount address =
    let up_to_next_page = 0x1000 - bit_and address 0xfff in
    let chunk = min amount up_to_next_page in
    let rest = remote_ranges fuel (amount - chunk) (add64 address chunk) in
    if amount == 0 then [] else (address, chunk) ∷ rest

-- The loop of ReadMemoryWithoutTraps. A write outside the vector is undefined.
abbrev pub keeps_trap : BreakpointSite → Bool
keeps_trap site = not site.is_enabled || site.is_hardware

unfoldable pub restore_traps : ℕ → List BreakpointSite → List ℕ → Option (List ℕ)
restore_traps address [] memory = some memory
restore_traps address (site ∷ sites) memory =
    let offset = sub64 site.address address in
    let restored = restore_traps address sites (set memory offset site.saved_data) in
    let skipped = restore_traps address sites memory in
    if keeps_trap site then skipped else if ltb offset (length memory) then restored else none

module _ {K : Type 0} (env : Env K) where
  -- The vector is filled with zeros first, and the call's count of bytes is not looked at.
  unfoldable pub read_memory : ℕ → ℕ → Process K → Outcome (Process K) (List ℕ)
  unfolding remote_ranges
  read_memory address amount = do
    bytes ← ask (env.kernel.vm_read (remote_ranges amount amount address)) could_not_read_memory
    pure (pad amount bytes)

  unfoldable pub read_memory_without_traps : ℕ → ℕ → Process K → Outcome (Process K) (List ℕ)
  unfolding read_memory restore_traps
  read_memory_without_traps address amount = do
    memory ← read_memory address amount
    p ← get
    let sites = get_in_region address (add64 address amount) p.breakpoint_sites
    λ q. elim (restore_traps address sites memory) [
      | none ↦ unspecified
      | some restored ↦ done restored q
    ]

  -- The word of one round of WriteMemory: 8 bytes of the data, or what is left of it in front of
  -- the bytes that stand there.
  unfoldable pub next_word : ℕ → List ℕ → Process K → Outcome (Process K) ℕ
  unfolding read_memory
  next_word address rest p =
      if leb 8 (length rest)
      then done (from_bytes (take 8 rest)) p
      else (read_memory address 8 >>= λ read. pure (from_bytes (rest ++ drop (length rest) read))) p

  -- The while loop of WriteMemory, at `written` bytes, with the data that is left.
  unfoldable pub write_loop : ℕ → ℕ → ℕ → List ℕ → Process K → Outcome (Process K) (Unit {0})
  unfolding next_word
  write_loop zero address written rest = pure tt
  write_loop (suc fuel) address written [] = pure tt
  write_loop (suc fuel) address written (b ∷ rest) = do
    word ← next_word (add64 address written) (b ∷ rest)
    tell (env.kernel.poke_data (add64 address written) word) failed_to_write_memory
    write_loop fuel address (written + 8) (drop 8 (b ∷ rest))

  unfoldable pub write_memory : ℕ → List ℕ → Process K → Outcome (Process K) (Unit {0})
  unfolding write_loop
  write_memory address bytes = write_loop (length bytes) address 0 bytes
