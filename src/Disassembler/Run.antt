-- ===== src/Disassembler/Run.antt =====
-- What Disassembler::Disassemble lists.
use building_a_debugger.Common.{
  ℕ, zero, suc, ◌+◌, ◌*◌, ◌%◌, ◌^◌, ◌<◌, ◌≡◌, refl, ap, ◌∙◌, ◌⊎◌, inl, inr, List, [], ◌∷◌, none,
  some, drop, All, could_not_read_memory, arith,
}
use building_a_debugger.Address.{add64}
use building_a_debugger.Kernel.{MemoryLaws, ReadableIn, bytes_at}
use building_a_debugger.Process.State.{Process, Env, Outcome, done, raised, aborted, unspecified}
use building_a_debugger.Process.Memory.{read_memory_without_traps}
use building_a_debugger.Process.Memory.Traps.{Saves, Shows}
use building_a_debugger.Process.Memory.Region.{read_memory_without_traps_lem}
use building_a_debugger.Disassembler.{Decoder, Instruction, disassemble_loop, disassemble}

-- At most n instructions that follow one another in memory: each is what the decoder makes of the
-- bytes at its address, the next one stands behind it, and the list ends early only where the decoder
-- fails.
abbrev pub Listing : Decoder → ℕ → ℕ → List ℕ → List Instruction → Type 0
Listing decode zero address bytes is = is ≡ []
Listing decode (suc n) address bytes [] = decode address bytes ≡ none
Listing decode (suc n) address bytes (i ∷ rest) =
    (size : ℕ) × (decode address bytes ≡ some (size, i.text))
    × (i.address ≡ address)
    × Listing decode n (add64 address size) (drop size bytes) rest

disassemble_loop-Listing :
    (decode : Decoder) (n address : ℕ) (bytes : List ℕ)
    → Listing decode n address bytes (disassemble_loop decode n address bytes)
unfolding disassemble_loop
disassemble_loop-Listing decode zero address bytes = refl
disassemble_loop-Listing decode (suc n) address bytes =
    (elim (decode address bytes)
        as (λ o.
          decode address bytes ≡ o
          → Listing decode (suc n) address bytes (elim o [
            | none ↦ []
            | some (size, text) ↦
                record { address = address; text = text }
                ∷ disassemble_loop decode n (add64 address size) (drop size bytes)
          ])) [
            | none ↦ λ e. e
            | some (size, text) ↦ λ e. (
              size,
              e,
              refl,
              disassemble_loop-Listing decode n (add64 address size) (drop size bytes),
            )
          ])
      refl

-- Disassembling from an address, where 15 bytes for each instruction end inside the address space
-- and can all be read: where every enabled software site has saved the byte of
-- the program at its address, and memory shows the program wherever no such site stands, the call
-- throws, or leaves the process alone and lists at most as many consecutive instructions as are asked
-- for, as the decoder reads them in the bytes of the program itself and not in those of its
-- breakpoints.
pub disassemble-Listing :
    {K : Type 0} (env : Env K) (laws : MemoryLaws env.kernel) (decode : Decoder) (program : ℕ → ℕ)
    (n address : ℕ) (p : Process K)
    → address + n * 15 < 2 ^ 64
    → ReadableIn (laws.readable p.kernel_state) address (address + n * 15)
    → All (Saves program) p.breakpoint_sites
    → Shows program (laws.memory p.kernel_state) p.breakpoint_sites address (address + n * 15)
    → (disassemble env decode n (some address) p ≡ raised could_not_read_memory p)
      ⊎ ((is : List Instruction) × (disassemble env decode n (some address) p ≡ done is p)
          × Listing decode n address (bytes_at program address (n * 15)) is)
unfolding disassemble
disassemble-Listing {K} env laws decode program n address p bound readable saves shows =
    elim (read_memory_without_traps_lem env laws program address (n * 15) p bound readable saves
      shows) [
        | inl e ↦ inl (ap then_list (same_amount ∙ e))
        | inr e ↦ inr (
          disassemble_loop decode n address (bytes_at program address (n * 15)),
          ap then_list (same_amount ∙ e),
          disassemble_loop-Listing decode n address (bytes_at program address (n * 15)),
        )
      ]
  where
    then_list : Outcome (Process K) (List ℕ) → Outcome (Process K) (List Instruction)
    then_list o = elim o [
      | done code q ↦ done (disassemble_loop decode n address code) q
      | raised e q ↦ raised e q
      | aborted ↦ aborted
      | unspecified ↦ unspecified
    ]

    same_amount :
        read_memory_without_traps env address (n * 15 % 2 ^ 64) p
        ≡ read_memory_without_traps env address (n * 15) p
    same_amount = ap (λ k. read_memory_without_traps env address k p) (omega arith)
