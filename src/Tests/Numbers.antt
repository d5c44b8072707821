-- ===== src/Tests/Numbers.antt =====
-- Variable-length integers and the debug control register at concrete inputs.
use building_a_debugger.Common.{
  ℕ, ◌+◌, ◌*◌, ◌%◌, ◌^◌, ◌≡◌, ◌++◌, [], ◌∷◌, arith, ok, ◌==◌, if◌then◌else◌,
}
use building_a_debugger.Common.Int.{signed64}
use building_a_debugger.Dwarf.Cursor.{uleb128, sleb128}
use building_a_debugger.Dwarf.Leb.{mark, group_value, uleb128-mark}
use building_a_debugger.Dwarf.SignedLeb.{signed_value, sleb128-mark}
use building_a_debugger.Process.Hardware.{armed_control, cleared_control}
use building_a_debugger.Process.Hardware.Control.{enable_bits, condition_bits, armed_control_slots}
use building_a_debugger.Process.Hardware.Clear.{cleared_control_enable, cleared_control_condition}

uleb128-mark_example :
    uleb128 ((7 ∷ []) ++ (mark 0x65 (0x0e ∷ 0x26 ∷ []) ++ (9 ∷ []))) (record { pos = 1; end = 5 })
    ≡ ok (group_value (0x65 ∷ 0x0e ∷ 0x26 ∷ []) % 2 ^ 64, record { pos = 4; end = 5 })
uleb128-mark_example =
    uleb128-mark (7 ∷ []) 0x65 (0x0e ∷ 0x26 ∷ []) (9 ∷ []) 5 (omega arith)
      (omega arith, (omega arith, (omega arith, tt)))

sleb128-mark_example :
    (w : ℕ) × (sleb128 ((7 ∷ []) ++ (mark 0x40 (0x7b ∷ []) ++ [])) (record { pos = 1; end = 3 })
      ≡ ok (w, record { pos = 3; end = 3 }))
    × (signed64 w ≡ signed_value 0x40 (0x7b ∷ []))
sleb128-mark_example =
    sleb128-mark (7 ∷ []) 0x40 (0x7b ∷ []) [] 3 (omega arith) (omega arith, (omega arith, tt))

armed_control_slots_example :
    (enable_bits (armed_control 0x50001 1 1 3) 0 ≡ (if 0 == 1 then 1 else enable_bits 0x50001 0))
    × (condition_bits (armed_control 0x50001 1 1 3) 0
        ≡ (if 0 == 1 then 1 + 4 * 3 else condition_bits 0x50001 0))
armed_control_slots_example =
    armed_control_slots 0x50001 1 0 1 3 (omega arith) (omega arith) (omega arith) (omega arith)

cleared_control_enable_example :
    enable_bits (cleared_control 0x50005 1) 0 ≡ (if 0 == 1 then 0 else enable_bits 0x50005 0)
cleared_control_enable_example = cleared_control_enable 0x50005 1 0 (omega arith) (omega arith)

cleared_control_condition_example :
    condition_bits (cleared_control 0xf0005 1) 0 ≡ condition_bits 0xf0005 0 % 2 ^ 1
cleared_control_condition_example = cleared_control_condition 0xf0005 1 (omega arith)
