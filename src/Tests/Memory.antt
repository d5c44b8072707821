-- ===== src/Tests/Memory.antt =====
-- Memory and breakpoints on the machine of the tests.
use building_a_debugger.Disassembler.{Decoder, Instruction, disassemble}
use building_a_debugger.Disassembler.Run.{Listing, disassemble-Listing}
use building_a_debugger.Common.{
  ℕ, ◌≡◌, refl, ap, ◌%◌, ◌-◌, ◌<◌, ◌++◌, zeros, true, false, [], ◌∷◌, arith, set, ◌⊎◌, inl, inr,
  ◌==◌, Bool-cases, could_not_read_memory, none, some, List,
}
use building_a_debugger.Kernel.{bytes_at}
use building_a_debugger.Process.State.{Process, done, raised}
use building_a_debugger.Process.Memory.{
  remote_ranges, read_memory, read_memory_without_traps, write_memory,
}
use building_a_debugger.Process.Memory.Chunks.{Reaches}
use building_a_debugger.Process.Memory.Reads.{Covers, remote_ranges-Covers, read_memory_lem}
use building_a_debugger.Process.Memory.Loop.{Written, write_memory-Written}
use building_a_debugger.Process.Memory.Traps.{Shows}
use building_a_debugger.Process.Memory.Region.{read_memory_without_traps_lem}
use building_a_debugger.Process.Sites.{enable_site, disable_site}
use building_a_debugger.Process.Sites.Enable.{
  Planted, Lifted, enable_site-Planted, disable_site-Lifted, disable_site-enable_site, with_byte,
}
use building_a_debugger.Tests.Machine.{env, laws, program, site, process, state_of}

remote_ranges-Covers_example : Covers 4090 20 (remote_ranges 20 20 4090)
remote_ranges-Covers_example = remote_ranges-Covers 20 20 4090 (omega arith) (omega arith)

read_memory_lem_example :
    ((env.kernel.vm_read (remote_ranges 20 20 4090) process.kernel_state ≡ none)
      × (read_memory env 4090 20 process ≡ raised could_not_read_memory process))
    ⊎ ((n : ℕ) × Reaches (laws.readable process.kernel_state) 4090 20 n
        × (0 < 20 → 0 < n)
        × (read_memory env 4090 20 process
            ≡ done (bytes_at (laws.memory process.kernel_state) 4090 n ++ zeros (20 - n)) process))
read_memory_lem_example = read_memory_lem env laws 4090 20 process (omega arith)

write_memory-Written_example :
    Written env laws.memory 60
      (1 ∷ 2 ∷ 3 ∷ [])
      process
      (write_memory env 60 (1 ∷ 2 ∷ 3 ∷ []) process)
write_memory-Written_example =
    write_memory-Written env laws 60 (1 ∷ 2 ∷ 3 ∷ []) process (λ h. inl (omega arith))
      (omega arith, (omega arith, (omega arith, tt))) (omega arith)

process-Shows : Shows program (laws.memory process.kernel_state) process.breakpoint_sites 16 24
process-Shows a l u = elim (Bool-cases (a == 20)) [
  | inl e ↦ inr (inl (refl, ground arith))
  | inr e ↦ inl (ap (λ t. t % 256) (rw e refl))
]

read_memory_without_traps_lem_example :
    (read_memory_without_traps env 16 8 process ≡ raised could_not_read_memory process)
    ⊎ (read_memory_without_traps env 16 8 process ≡ done (bytes_at program 16 8) process)
read_memory_without_traps_lem_example =
    read_memory_without_traps_lem env laws program 16 8 process (omega arith) (λ a l u. refl)
      ((λ h. refl), ((λ h. refl), tt)) process-Shows

enable_site-Planted_example :
    Planted env laws 1 (site 2 40 false) process (enable_site env 1 process)
enable_site-Planted_example =
    enable_site-Planted env laws 1 (site 2 40 false) process refl refl refl

disable_site-Lifted_example :
    Lifted env laws 0 (site 1 20 true) process (disable_site env 0 process)
disable_site-Lifted_example =
    disable_site-Lifted env laws 0 (site 1 20 true) process refl refl refl (omega arith)

enabled : Process (ℕ → ℕ)
unfolding state_of enable_site
enabled = state_of (enable_site env 1 process)

disabled : Process (ℕ → ℕ)
unfolding state_of disable_site enabled
disabled = state_of (disable_site env 1 enabled)

enabled_done : enable_site env 1 process ≡ done tt enabled
unfolding enabled enable_site state_of
enabled_done = refl

disabled_done : disable_site env 1 enabled ≡ done tt disabled
unfolding disabled enabled enable_site disable_site state_of
disabled_done = refl

disable_site-enable_site_example :
    (disabled.breakpoint_sites
      ≡ set process.breakpoint_sites 1 (with_byte env laws (site 2 40 false) process))
    × ((a : ℕ) → laws.memory disabled.kernel_state a ≡ laws.memory process.kernel_state a)
disable_site-enable_site_example =
    disable_site-enable_site env laws 1 (site 2 40 false) process enabled disabled refl refl refl
      enabled_done disabled_done

-- Every instruction is one byte long.
abbrev one_byte : Decoder
one_byte address bytes = elim bytes [ [] ↦ none | b ∷ bs ↦ some (1, b ∷ []) ]

disassemble-Listing_example :
    (disassemble env one_byte 1 (some 16) process ≡ raised could_not_read_memory process)
    ⊎ ((is : List Instruction) × (disassemble env one_byte 1 (some 16) process ≡ done is process)
        × Listing one_byte 1 16 (bytes_at program 16 15) is)
disassemble-Listing_example =
    disassemble-Listing env laws one_byte program 1 16 process (omega arith) (λ a l u. refl)
      ((λ h. refl), ((λ h. refl), tt)) shows
  where
    shows : Shows program (laws.memory process.kernel_state) process.breakpoint_sites 16 31
    shows a l u = elim (Bool-cases (a == 20)) [
      | inl e ↦ inr (inl (refl, ground arith))
      | inr e ↦ inl (ap (λ t. t % 256) (rw e refl))
    ]
