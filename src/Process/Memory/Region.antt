-- ===== src/Process/Memory/Region.antt =====
-- Process::ReadMemoryWithoutTraps as a whole: the read, the sites of the region, the loop over them.
use building_a_debugger.Common.{
  ℕ, ◌+◌, ◌^◌, ◌<◌, ◌≤◌, ◌≡◌, refl, ap, ◌∙◌, true, false, List, [], ◌∷◌, arith, select, All,
  Bool-cases, some, ◌⊎◌, inl, inr, could_not_read_memory,
}
use building_a_debugger.Address.{add64}
use building_a_debugger.Kernel.{bytes_at, MemoryLaws, ReadableIn}
use building_a_debugger.Stoppoints.{get_in_region}
use building_a_debugger.Process.State.{
  BreakpointSite, site_point, in_range, Process, Env, done, raised, ◌>>=◌, get,
}
use building_a_debugger.Process.Memory.Reads.{read_memory_readable}
use building_a_debugger.Process.Memory.Traps.{Trapped, Saves, Inside, Shows, restore_traps_lem}
use building_a_debugger.Process.Memory.{restore_traps, read_memory, read_memory_without_traps}

in_range→Inside :
    (low high : ℕ) (s : BreakpointSite) → in_range low high s.address ≡ true → Inside low high s
in_range→Inside low high s e = (ground arith, ground arith)

Inside→in_range : (low high a : ℕ) → low ≤ a → a < high → in_range low high a ≡ true
Inside→in_range low high a l u = ground arith

region : ℕ → ℕ → List BreakpointSite → List BreakpointSite
region low high = select (λ s. in_range low high s.address)

region_in :
    (low high : ℕ) (s : BreakpointSite) (sites : List BreakpointSite)
    → in_range low high s.address ≡ true
    → region low high (s ∷ sites) ≡ s ∷ region low high sites
unfolding region
region_in low high s sites e = rw e refl

region_out :
    (low high : ℕ) (s : BreakpointSite) (sites : List BreakpointSite)
    → in_range low high s.address ≡ false
    → region low high (s ∷ sites) ≡ region low high sites
unfolding region
region_out low high s sites e = rw e refl

region-Inside :
    (low high : ℕ) (sites : List BreakpointSite) → All (Inside low high) (region low high sites)
unfolding region
region-Inside low high [] = tt
region-Inside low high (s ∷ sites) = elim (Bool-cases (in_range low high s.address)) [
  | inl e ↦
      rw (region_in low high s sites e) (in_range→Inside low high s e, region-Inside low high sites)
  | inr e ↦ rw (region_out low high s sites e) (region-Inside low high sites)
]

region-Saves :
    (program : ℕ → ℕ) (low high : ℕ) (sites : List BreakpointSite)
    → All (Saves program) sites
    → All (Saves program) (region low high sites)
unfolding region
region-Saves program low high [] h = tt
region-Saves program low high (s ∷ sites) h = elim (Bool-cases (in_range low high s.address)) [
  | inl e ↦ rw (region_in low high s sites e) (h.0, region-Saves program low high sites h.1)
  | inr e ↦ rw (region_out low high s sites e) (region-Saves program low high sites h.1)
]

region-Trapped :
    (low high : ℕ) (sites : List BreakpointSite) (a : ℕ)
    → low ≤ a
    → a < high
    → Trapped sites a
    → Trapped (region low high sites) a
region-Trapped low high [] a l u t = absurd t
region-Trapped low high (s ∷ sites) a l u (inl (k, at)) =
    rw (region_in low high s sites (ap (in_range low high) at ∙ Inside→in_range low high a l u))
      (inl (k, at))
region-Trapped low high (s ∷ sites) a l u (inr t) =
    let rest = region-Trapped low high sites a l u t in
    elim (Bool-cases (in_range low high s.address)) [
      | inl e ↦ rw (region_in low high s sites e) (inr rest)
      | inr e ↦ rw (region_out low high s sites e) rest
    ]

module _ {K : Type 0} (env : Env K) where
  region_raised :
      (address amount : ℕ) (p : Process K)
      → read_memory env address amount p ≡ raised could_not_read_memory p
      → read_memory_without_traps env address amount p ≡ raised could_not_read_memory p
  unfolding read_memory_without_traps
  region_raised address amount p e = rw (◌>>=◌, e) refl

  region_restored :
      (address amount : ℕ) (memory restored : List ℕ) (p : Process K)
      → read_memory env address amount p ≡ done memory p
      → restore_traps address (region address (add64 address amount) p.breakpoint_sites) memory
        ≡ some restored
      → read_memory_without_traps env address amount p ≡ done restored p
  unfolding read_memory_without_traps region get_in_region
  region_restored address amount memory restored p e f = rw (◌>>=◌, e, get, f) refl

  -- ReadMemoryWithoutTraps of a region that ends inside the address space and all of which can be
  -- read: where every enabled software site has saved the byte of the program
  -- at its address, and memory shows the program wherever no such site stands, the call throws, or
  -- returns the bytes of the program and leaves the process alone.
  pub read_memory_without_traps_lem :
      (laws : MemoryLaws env.kernel) (program : ℕ → ℕ) (address amount : ℕ) (p : Process K)
      → address + amount < 2 ^ 64
      → ReadableIn (laws.readable p.kernel_state) address (address + amount)
      → All (Saves program) p.breakpoint_sites
      → Shows program (laws.memory p.kernel_state) p.breakpoint_sites address (address + amount)
      → (read_memory_without_traps env address amount p ≡ raised could_not_read_memory p)
        ⊎ (read_memory_without_traps env address amount p
            ≡ done (bytes_at program address amount) p)
  read_memory_without_traps_lem laws program address amount p bound readable saves shows =
      elim (read_memory_readable env laws address amount p (omega arith) readable) [
        | inl e ↦ inl (region_raised address amount p e)
        | inr e ↦ inr (
            region_restored address amount _ _ p e (
              ap
                (λ h.
                  restore_traps address (region address h p.breakpoint_sites)
                    (bytes_at (laws.memory p.kernel_state) address amount))
                limit
              ∙ restore_traps_lem program (laws.memory p.kernel_state) address amount
                  (region address (address + amount) p.breakpoint_sites) bound
                  (region-Saves program address (address + amount) p.breakpoint_sites saves)
                  (region-Inside address (address + amount) p.breakpoint_sites)
                  (λ a l u. elim (shows a l u) [
                    | inl h ↦ inl h
                    | inr t ↦
                        inr (region-Trapped address (address + amount) p.breakpoint_sites a l u t)
                  ])))
      ]
    where
      limit : add64 address amount ≡ address + amount
      limit = omega arith
