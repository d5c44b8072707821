-- ===== src/Disassembler.antt =====
-- src/disassembler.cpp. `Decoder` stands for ZydisDisassembleATT on the bytes from the start of an
-- instruction at an address on: the length of the instruction and its text, or none where it fails.
pub mod Run
use building_a_debugger.Common.{
  ℕ, zero, suc, ◌*◌, ◌%◌, ◌^◌, List, [], ◌∷◌, Option, none, some, drop,
}
use building_a_debugger.Address.{add64}
use building_a_debugger.Process.State.{Process, Env, Outcome, ◌>>=◌, pure}
use building_a_debugger.Process.Memory.{read_memory_without_traps}
use building_a_debugger.Process.Registers.{get_pc}

abbrev pub Decoder : Type 0
Decoder = ℕ → List ℕ → Option (ℕ × List ℕ)

pub record Instruction : Type 0 where
  pub address : ℕ
  pub text : List ℕ

-- The while loop: the instructions that are left to decode, the address and the bytes from it on.
unfoldable pub disassemble_loop : Decoder → ℕ → ℕ → List ℕ → List Instruction
disassemble_loop decode zero address bytes = []
disassemble_loop decode (suc n) address bytes = elim (decode address bytes) [
  | none ↦ []
  | some (size, text) ↦
      record { address = address; text = text }
      ∷ disassemble_loop decode n (add64 address size) (drop size bytes)
]

module _ {K : Type 0} (env : Env K) (decode : Decoder) where
  abbrev pub start_address : Option ℕ → Process K → Outcome (Process K) ℕ
  start_address none = get_pc env
  start_address (some address) = pure address

  -- An instruction has 15 bytes at most.
  unfoldable pub disassemble : ℕ → Option ℕ → Process K → Outcome (Process K) (List Instruction)
  unfolding disassemble_loop
  disassemble n address = do
    start ← start_address address
    code ← read_memory_without_traps env start (n * 15 % 2 ^ 64)
    pure (disassemble_loop decode n start code)
