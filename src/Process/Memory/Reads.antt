-- ===== src/Process/Memory/Reads.antt =====
-- Process::ReadMemory of src/process.cpp and its remote ranges.
use mathlib.Core.List.{append-nil}
use building_a_debugger.Common.{
  false, ltb, ltb→lt, ltb_false→le, Bool-cases, zeros, ℕ, zero, suc, ◌+◌, ◌-◌, ◌%◌, ◌^◌, ◌≤◌, ◌<◌,
  min, ◌≡◌, refl, sym, ap, ap₂, ◌∙◌, List, ◌∷◌, ◌++◌, arith, All, inl, inr, none, some,
  Option-cases, ◌⊎◌, could_not_read_memory,
}
use building_a_debugger.Address.{add64}
use building_a_debugger.Kernel.{bytes_at, bytes_of_ranges, total, MemoryLaws, ReadableIn}
use building_a_debugger.Registers.{pad}
use building_a_debugger.Process.State.{Process, Env, done, raised, ◌>>=◌, ask}
use building_a_debugger.Process.Memory.Bytes.{pad-zeros}
use building_a_debugger.Process.Memory.{remote_ranges, read_memory}
use building_a_debugger.Process.Memory.Chunks.{
  bytes_at-split, bytes_at-add64, length-bytes_at, remote_ranges-step, remote_ranges-none,
  is_readable-first, Reaches, remote-transferred,
}

-- A range that takes a byte at least and does not cross a page boundary.
abbrev pub InPage : ℕ × ℕ → Type 0
InPage (a, n) = (0 < n) × (a % 4096 + n ≤ 4096)

-- The ranges hold the bytes that are asked for, in order and in that number, each inside one page.
pub record Covers (address amount : ℕ) (ranges : List (ℕ × ℕ)) : Type 0 where
  pub in_order : (memory : ℕ → ℕ) → bytes_of_ranges memory ranges ≡ bytes_at memory address amount
  pub number : total ranges ≡ amount
  pub in_pages : All InPage ranges

Covers-cons :
    (address amount chunk : ℕ) (ranges : List (ℕ × ℕ))
    → address + amount ≤ 2 ^ 64
    → chunk ≤ amount
    → InPage (address, chunk)
    → Covers (add64 address chunk) (amount - chunk) ranges
    → Covers address amount ((address, chunk) ∷ ranges)
Covers-cons address amount chunk ranges inside small page rest = record {
  in_order = λ memory.
      ap (λ bs. bytes_at memory address chunk ++ bs)
        (rest.in_order memory ∙ bytes_at-add64 memory address chunk (amount - chunk) (omega arith))
      ∙ sym (bytes_at-split memory address chunk (amount - chunk))
      ∙ ap (bytes_at memory address) whole;
  number = omega (arith, rest.number);
  in_pages = (page, rest.in_pages);
}
  where
    whole : chunk + (amount - chunk) ≡ amount
    whole = omega arith

-- Reading `amount` bytes that do not run past the address space asks the kernel for exactly those
-- bytes, in ranges that do not cross a page boundary.
pub remote_ranges-Covers :
    (fuel amount address : ℕ)
    → amount ≤ fuel
    → address + amount ≤ 2 ^ 64
    → Covers address amount (remote_ranges fuel amount address)
remote_ranges-Covers fuel zero address enough inside =
    rw (remote_ranges-none fuel address)
      (record { in_order = λ memory. refl; number = refl; in_pages = tt })
remote_ranges-Covers zero (suc n) address enough inside = absurd (omega arith)
remote_ranges-Covers (suc fuel) (suc n) address enough inside =
    let chunk = min (suc n) (4096 - address % 4096) in
    rw (remote_ranges-step fuel (suc n) address (omega arith)) (
      Covers-cons address (suc n) chunk _ inside (omega arith) (omega arith) (
        remote_ranges-Covers fuel (suc n - chunk) (add64 address chunk) (omega arith)
          (omega arith)))

module _ {K : Type 0} (env : Env K) where
  read_memory-none :
      (address amount : ℕ) (p : Process K)
      → env.kernel.vm_read (remote_ranges amount amount address) p.kernel_state ≡ none
      → read_memory env address amount p ≡ raised could_not_read_memory p
  unfolding read_memory
  read_memory-none address amount p e = rw (◌>>=◌, ask, e) refl

  read_memory-some :
      (address amount : ℕ) (bytes : List ℕ) (p : Process K)
      → env.kernel.vm_read (remote_ranges amount amount address) p.kernel_state ≡ some bytes
      → read_memory env address amount p ≡ done (pad amount bytes) p
  unfolding read_memory
  read_memory-some address amount bytes p e = rw (◌>>=◌, ask, e) refl

module _ {K : Type 0} (env : Env K) (laws : MemoryLaws env.kernel) where
  -- A transfer that does not fail takes a byte at least.
  refused :
      (amount address : ℕ) (s : K)
      → 0 < amount
      → laws.readable s address ≡ false
      → env.kernel.vm_read (remote_ranges amount amount address) s ≡ none
  refused zero address s h e = absurd (omega arith)
  refused (suc k) address s h e =
      let chunk = min (suc k) (4096 - address % 4096) in
      ap (λ r. env.kernel.vm_read r s) (remote_ranges-step k (suc k) address h)
      ∙ laws.vm_read-fault address chunk _ s
          (is_readable-first (laws.readable s) address chunk (omega arith) e)

  -- ReadMemory of bytes that end inside the address space leaves the process alone. It throws if the
  -- kernel refuses the transfer; otherwise it returns as many bytes as it was asked for: those of
  -- memory up to the first that cannot be read, of which there is one at least, and zeros from there
  -- on, since the count of the bytes that were transferred is not looked at.
  pub read_memory_lem :
      (address amount : ℕ) (p : Process K)
      → address + amount ≤ 2 ^ 64
      → ((env.kernel.vm_read (remote_ranges amount amount address) p.kernel_state ≡ none)
          × (read_memory env address amount p ≡ raised could_not_read_memory p))
        ⊎ ((n : ℕ) × Reaches (laws.readable p.kernel_state) address amount n
            × (0 < amount → 0 < n)
            × (read_memory env address amount p
                ≡ done (bytes_at (laws.memory p.kernel_state) address n ++ zeros (amount - n)) p))
  read_memory_lem address amount p inside =
      let ranges = remote_ranges amount amount address in
      let s = p.kernel_state in
      elim (Option-cases (env.kernel.vm_read ranges s)) [
        | inl e ↦ inl (e, read_memory-none env address amount p e)
        | inr (bytes, e) ↦
            let (n, reaches, read) =
              remote-transferred (laws.memory s) (laws.readable s) (laws.readable-page s) amount
                amount address (omega arith) inside in
            inr (
              n,
              reaches,
              some_byte n reaches bytes e,
              read_memory-some env address amount bytes p e
                  ∙ ap (λ t. done t p)
                      (ap (pad amount) (laws.vm_read-transferred ranges s bytes e ∙ read)
                        ∙ pad-zeros amount (bytes_at (laws.memory s) address n)
                            (omega (arith, length-bytes_at (laws.memory s) address n, reaches.0))
                        ∙ ap (λ k. bytes_at (laws.memory s) address n ++ zeros (amount - k))
                            (length-bytes_at (laws.memory s) address n)),
            )
      ]
    where
      some_byte :
          (n : ℕ)
          → Reaches (laws.readable p.kernel_state) address amount n
          → (bytes : List ℕ)
          → env.kernel.vm_read (remote_ranges amount amount address) p.kernel_state ≡ some bytes
          → 0 < amount
          → 0 < n
      some_byte (suc n) reaches bytes e h = omega arith
      some_byte zero reaches bytes e h =
          let none_read : none ≡ some bytes =
            sym (
              refused amount address p.kernel_state h
                (ap (laws.readable p.kernel_state) (omega arith) ∙ reaches.2 h))
            ∙ e in
          cc

  -- Where the bytes can be read, ReadMemory throws or returns them.
  pub read_memory_readable :
      (address amount : ℕ) (p : Process K)
      → address + amount ≤ 2 ^ 64
      → ReadableIn (laws.readable p.kernel_state) address (address + amount)
      → (read_memory env address amount p ≡ raised could_not_read_memory p)
        ⊎ (read_memory env address amount p
            ≡ done (bytes_at (laws.memory p.kernel_state) address amount) p)
  read_memory_readable address amount p inside readable =
      elim (read_memory_lem address amount p inside) [
        | inl (e, f) ↦ inl f
        | inr (n, (fits, read, stops), one, e) ↦
            inr (e ∙ ap (λ t. done t p) (whole (laws.memory p.kernel_state) n (all n fits stops)))
      ]
    where
      all :
          (n : ℕ)
          → n ≤ amount
          → (n < amount → laws.readable p.kernel_state (address + n) ≡ false)
          → n ≡ amount
      all n fits stops = elim (Bool-cases (ltb n amount)) [
        | inl h ↦
            let less = ltb→lt n amount h in
            let yes' = readable (address + n) (omega arith) (omega arith) in
            let no' = stops less in cc
        | inr h ↦ omega (arith, ltb_false→le n amount h)
      ]

      whole :
          (memory : ℕ → ℕ) (n : ℕ)
          → n ≡ amount
          → bytes_at memory address n ++ zeros (amount - n) ≡ bytes_at memory address amount
      whole memory n e =
          let none_left : amount - n ≡ 0 = omega (arith, e) in
          ap₂ (λ k l. bytes_at memory address k ++ zeros l) e none_left
          ∙ append-nil (bytes_at memory address amount)

  -- The bytes of one page can be read, or the transfer fails.
  pub read_memory_in_page :
      (address amount : ℕ) (p : Process K)
      → address + amount ≤ 2 ^ 64
      → address % 4096 + amount ≤ 4096
      → (read_memory env address amount p ≡ raised could_not_read_memory p)
        ⊎ (read_memory env address amount p
            ≡ done (bytes_at (laws.memory p.kernel_state) address amount) p)
  read_memory_in_page address zero p inside in_page =
      read_memory_readable address 0 p inside (λ a l u. absurd (omega arith))
  read_memory_in_page address (suc k) p inside in_page =
      elim (Bool-cases (laws.readable p.kernel_state address)) [
        | inl e ↦
            read_memory_readable address (suc k) p inside
              (λ a l u. laws.readable-page p.kernel_state a address (omega arith) ∙ e)
        | inr e ↦ inl (
            read_memory-none env address (suc k) p
              (refused (suc k) address p.kernel_state (omega arith) e))
      ]
