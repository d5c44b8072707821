-- ===== src/Process/Hardware/Control.antt =====
-- The debug control register dr7, slot by slot: slot k has two enable bits at 2k, and a mode and a
-- size of two bits each at 16 + 4k.
use native.Mathlib.Nat.{mod-eq_of_lt}
use building_a_debugger.Common.{
  ℕ, ◌+◌, ◌-◌, ◌*◌, ◌/◌, ◌%◌, ◌^◌, ◌<◌, min, max, bit_or, ◌≡◌, refl, ap, ◌∙◌, Bool, true, false,
  ◌&&◌, arith, ltb, ◌==◌, if◌then◌else◌,
}
use building_a_debugger.Common.Bits.{
  bit_at, bit_at-lt, bit_at-and, bit_at-or, all_below, all_below_sound, field, field_ext,
}
use building_a_debugger.Process.Hardware.{armed_control, and_not_int}

-- The enable bits of a slot, and its mode and size.
abbrev pub enable_bits : ℕ → ℕ → ℕ
enable_bits control k = field control (k * 2) 2

abbrev pub condition_bits : ℕ → ℕ → ℕ
condition_bits control k = field control (k * 4 + 16) 4

-- What armed_control keeps of the old value, and what it sets.
keep_mask : ℕ → ℕ
keep_mask i =
    let clear_mask = bit_or (0b11 * 2 ^ (i * 2)) (0b1111 * 2 ^ (i * 4 + 16)) in
    if ltb clear_mask (2 ^ 31) then 2 ^ 64 - 1 - clear_mask else 2 ^ 32 - 1 - clear_mask

set_bits : ℕ → ℕ → ℕ → ℕ
set_bits i m s = bit_or (bit_or (2 ^ (i * 2)) (m * 2 ^ (i * 4 + 16))) (s * 2 ^ (i * 4 + 18))

armed_control-bit :
    (c i m s j : ℕ)
    → bit_at (armed_control c i m s) j
      ≡ max (min (bit_at c j) (bit_at (keep_mask i) j)) (bit_at (set_bits i m s) j)
unfolding armed_control and_not_int keep_mask set_bits
armed_control-bit c i m s j =
    bit_at-or _ _ j ∙ ap (λ t. max t (bit_at (set_bits i m s) j)) (bit_at-and c (keep_mask i) j)

-- A bit that is replaced by that of a given number, or is kept.
abbrev replaced_bit : Bool → ℕ → ℕ → ℕ → ℕ → Bool
replaced_bit here kept put value t =
    if here then kept == 0 && put == bit_at value t else kept == 1 && put == 0

condition_test : ℕ → ℕ → ℕ → ℕ → ℕ → Bool
unfolding keep_mask set_bits
condition_test i k m s t =
    let p = k * 4 + 16 + t in
    replaced_bit (k == i) (bit_at (keep_mask i) p) (bit_at (set_bits i m s) p) (m + 4 * s) t

enable_test : ℕ → ℕ → ℕ → ℕ → ℕ → Bool
unfolding keep_mask set_bits
enable_test i k m s t =
    let p = k * 2 + t in
    replaced_bit (k == i) (bit_at (keep_mask i) p) (bit_at (set_bits i m s) p) 1 t

-- A test of the slots i and k, of a mode, of a size and of n bits, for all of their values.
all_slots : ℕ → (ℕ → ℕ → ℕ → ℕ → ℕ → Bool) → Bool
unfolding all_below
all_slots n test =
    all_below 4
      λ i. all_below 4 λ k. all_below 4 λ m. all_below 4 λ s. all_below n λ t. test i k m s t

all_slots_sound :
    (n : ℕ) (test : ℕ → ℕ → ℕ → ℕ → ℕ → Bool)
    → all_slots n test ≡ true
    → (i k m s t : ℕ) → i < 4
    → k < 4
    → m < 4
    → s < 4
    → t < n
    → test i k m s t ≡ true
unfolding all_slots
all_slots_sound n test h i k m s t hi hk hm hs ht =
    all_below_sound n (test i k m s) t
      (all_below_sound 4 (λ s. all_below n (test i k m s)) s
        (all_below_sound 4 (λ m. all_below 4 λ s. all_below n (test i k m s)) m
          (all_below_sound 4 (λ k. all_below 4 λ m. all_below 4 λ s. all_below n (test i k m s)) k
            (all_below_sound 4
              (λ i. all_below 4 λ k. all_below 4 λ m. all_below 4 λ s. all_below n (test i k m s)) i
              h hi)
            hk)
          hm)
        hs)
      ht

condition_table : all_slots 4 condition_test ≡ true
unfolding all_slots condition_test
condition_table = refl

enable_table : all_slots 2 enable_test ≡ true
unfolding all_slots enable_test
enable_table = refl

replaced_bit_sound :
    (here : Bool) (c kept put value t : ℕ)
    → c < 2
    → replaced_bit here kept put value t ≡ true
    → max (min c kept) put ≡ (if here then bit_at value t else c)
replaced_bit_sound true c kept put value t hc h = ground arith
replaced_bit_sound false c kept put value t hc h = ground arith

from_start : (a t : ℕ) → bit_at a t ≡ bit_at a (0 + t)
from_start a t = let e : t ≡ 0 + t = omega arith in ap (bit_at a) e

module _ (c i k m s t : ℕ) (hi : i < 4) (hk : k < 4) (hm : m < 4) (hs : s < 4) where
  armed_enable_bit :
      t < 2
      → bit_at (armed_control c i m s) (k * 2 + t)
        ≡ (if k == i then bit_at 1 t else bit_at c (k * 2 + t))
  unfolding enable_test
  armed_enable_bit ht =
      armed_control-bit c i m s (k * 2 + t)
      ∙ replaced_bit_sound (k == i) _ _ _ 1 t (bit_at-lt c (k * 2 + t))
          (all_slots_sound 2 enable_test enable_table i k m s t hi hk hm hs ht)

  armed_condition_bit :
      t < 4
      → bit_at (armed_control c i m s) (k * 4 + 16 + t)
        ≡ (if k == i then bit_at (m + 4 * s) t else bit_at c (k * 4 + 16 + t))
  unfolding condition_test
  armed_condition_bit ht =
      armed_control-bit c i m s (k * 4 + 16 + t)
      ∙ replaced_bit_sound (k == i) _ _ _ (m + 4 * s) t (bit_at-lt c (k * 4 + 16 + t))
          (all_slots_sound 4 condition_test condition_table i k m s t hi hk hm hs ht)

-- A field whose bits are those of one of two numbers.
pub field_if :
    (here : Bool) (a n b c w : ℕ)
    → b < 2 ^ w
    → ((t : ℕ) → t < w → bit_at a (n + t) ≡ (if here then bit_at b t else bit_at c (n + t)))
    → field a n w ≡ (if here then b else field c n w)
field_if true a n b c w small h = field_ext a n b 0 w (λ t ht. h t ht ∙ from_start b t) ∙ whole
  where
    whole : field b 0 w ≡ b
    whole = ap (λ t. t % 2 ^ w) undivided ∙ mod-eq_of_lt small
      where
        undivided : b / 2 ^ 0 ≡ b
        undivided = omega arith
field_if false a n b c w small h = field_ext a n c n w h

-- Arming slot i sets its enable bits to 01 and its mode and size to the given ones, and leaves the
-- enable bits, the modes and the sizes of the other slots as they are.
pub armed_control_slots :
    (c i k m s : ℕ)
    → i < 4
    → k < 4
    → m < 4
    → s < 4
    → (enable_bits (armed_control c i m s) k ≡ (if k == i then 1 else enable_bits c k))
      × (condition_bits (armed_control c i m s) k
          ≡ (if k == i then m + 4 * s else condition_bits c k))
armed_control_slots c i k m s hi hk hm hs = (
  field_if (k == i) (armed_control c i m s) (k * 2) 1 c 2 (omega arith)
      (λ t. armed_enable_bit c i k m s t hi hk hm hs),
  field_if (k == i) (armed_control c i m s) (k * 4 + 16) (m + 4 * s) c 4 (omega arith)
      (λ t. armed_condition_bit c i k m s t hi hk hm hs),
)
