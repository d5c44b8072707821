-- ===== src/Process/Hardware/Clear.antt =====
-- The debug control register dr7 after ClearHardwareStoppoint.
use building_a_debugger.Common.{
  ℕ, ◌+◌, ◌-◌, ◌*◌, ◌%◌, ◌^◌, ◌<◌, min, bit_or, ◌≡◌, refl, Bool, true, ◌&&◌, arith, ltb, ◌==◌,
  if◌then◌else◌,
}
use building_a_debugger.Common.Bits.{
  bit_at, bit_at-lt, bit_at-and, bit_at-zero, bit_at_ext, bit_at-field, bit_at-low, all_below,
  all_below_sound,
}
use building_a_debugger.Process.Hardware.{cleared_control, and_not_int}
use building_a_debugger.Process.Hardware.Control.{enable_bits, condition_bits, field_if}

clear_mask_of : ℕ → ℕ
clear_mask_of i = bit_or (0b11 * 2 ^ (i * 2)) (0b1111 * 2 ^ (i + 16))

cleared_enable_test : ℕ → ℕ → ℕ → Bool
unfolding clear_mask_of
cleared_enable_test i k t =
    bit_at (2 ^ 64 - 1 - clear_mask_of i) (k * 2 + t) == (if k == i then 0 else 1)

cleared_condition_test : ℕ → ℕ → Bool
unfolding clear_mask_of
cleared_condition_test i t =
    ltb (clear_mask_of i) (2 ^ 31)
    && bit_at (2 ^ 64 - 1 - clear_mask_of i) (0 * 4 + 16 + t) == (if ltb t i then 1 else 0)

cleared_enable_table :
    all_below 4 (λ i. all_below 4 λ k. all_below 2 λ t. cleared_enable_test i k t) ≡ true
unfolding all_below cleared_enable_test
cleared_enable_table = refl

cleared_condition_table : all_below 4 (λ i. all_below 4 λ t. cleared_condition_test i t) ≡ true
unfolding all_below cleared_condition_test
cleared_condition_table = refl

cleared_condition_sound :
    (i t : ℕ)
    → i < 4
    → t < 4
    → (ltb (clear_mask_of i) (2 ^ 31) ≡ true)
      × (bit_at (2 ^ 64 - 1 - clear_mask_of i) (0 * 4 + 16 + t) ≡ (if ltb t i then 1 else 0))
unfolding cleared_condition_test
cleared_condition_sound i t hi ht = ground (
  arith,
  all_below_sound 4 (cleared_condition_test i) t
      (all_below_sound 4 (λ i. all_below 4 (cleared_condition_test i)) i cleared_condition_table hi)
      ht,
)

cleared_control-bit :
    (c i j : ℕ)
    → i < 4
    → bit_at (cleared_control c i) j ≡ min (bit_at c j) (bit_at (2 ^ 64 - 1 - clear_mask_of i) j)
unfolding cleared_control and_not_int clear_mask_of
cleared_control-bit c i j hi =
    rw (cleared_condition_sound i 0 hi (omega arith)).0 (bit_at-and c _ j)

cleared_enable_bit :
    (c i k t : ℕ)
    → i < 4
    → k < 4
    → t < 2
    → bit_at (cleared_control c i) (k * 2 + t)
      ≡ (if k == i then bit_at 0 t else bit_at c (k * 2 + t))
unfolding cleared_enable_test
cleared_enable_bit c i k t hi hk ht = ground (
  arith,
  cleared_control-bit c i (k * 2 + t) hi,
  bit_at-lt c (k * 2 + t),
  bit_at-zero t,
  all_below_sound 2 (cleared_enable_test i k) t
      (all_below_sound 4 (λ k. all_below 2 (cleared_enable_test i k)) k
        (all_below_sound 4 (λ i. all_below 4 λ k. all_below 2 (cleared_enable_test i k)) i
          cleared_enable_table hi)
        hk)
      ht,
)

-- Clearing slot i clears its two enable bits and leaves those of the other slots as they are.
pub cleared_control_enable :
    (c i k : ℕ)
    → i < 4
    → k < 4
    → enable_bits (cleared_control c i) k ≡ (if k == i then 0 else enable_bits c k)
cleared_control_enable c i k hi hk =
    field_if (k == i) (cleared_control c i) (k * 2) 0 c 2 (omega arith)
      (λ t ht. cleared_enable_bit c i k t hi hk ht)

-- Clearing slot i keeps the low i bits only of the mode and size of slot 0, which is another slot
-- unless i is 0: the shift of the mask lacks the factor 4.
pub cleared_control_condition :
    (c i : ℕ) → i < 4 → condition_bits (cleared_control c i) 0 ≡ condition_bits c 0 % 2 ^ i
cleared_control_condition c i hi =
    bit_at_ext (condition_bits (cleared_control c i) 0) (condition_bits c 0 % 2 ^ i) λ t. ground (
      arith,
      bit_at-field (cleared_control c i) 16 4 t,
      cleared_control-bit c i (16 + t) hi,
      bit_at-lt c (16 + t),
      cleared_condition_sound i t hi,
      bit_at-low i (condition_bits c 0) t,
      bit_at-field c 16 4 t,
    )
