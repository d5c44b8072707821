-- ===== src/Process/Hardware/Free.antt =====
-- FindFreeStoppointRegister of src/process.cpp and the enable bits of dr7.
use building_a_debugger.Common.{
  ℕ, zero, suc, ◌+◌, ◌*◌, ◌/◌, ◌%◌, ◌^◌, ◌<◌, ◌≤◌, bit_and, ◌≡◌, ◌≢◌, refl, sym, ap, ◌∙◌, Bool,
  true, false, not, arith, ◌==◌, ==→eq, if◌then◌else◌, Bool-cases, inl, inr, Run, ok, throws,
  undefined,
}
use building_a_debugger.Common.Bits.{
  bit_at, bit_at-and, bit_at_ext, bit_at-low, all_below, all_below_sound,
}
use building_a_debugger.Process.Hardware.{find_free_from, find_free_stoppoint_register}
use building_a_debugger.Process.Hardware.Control.{enable_bits}

-- A mask of 8 bits sees the low byte only.
mask_low : (c m : ℕ) → m < 256 → bit_and c m ≡ bit_and (c % 256) m
mask_low c m small = bit_at_ext (bit_and c m) (bit_and (c % 256) m) λ j. ground (
  arith,
  bit_at-and c m j,
  bit_at-and (c % 256) m j,
  bit_at-low 8 c j,
  bit_at-low 8 m j,
  ap (λ t. bit_at t j) whole,
)
  where
    whole : m % 2 ^ 8 ≡ m
    whole = omega arith

abbrev agree : Bool → Bool → Bool
agree a b = if a then b else not b

slot_test : ℕ → ℕ → Bool
slot_test i v = agree (bit_and v (0b11 * 2 ^ (i * 2)) == 0) (v / 2 ^ (i * 2) % 4 == 0)

slot_table : all_below 4 (λ i. all_below 256 (slot_test i)) ≡ true
unfolding all_below slot_test
slot_table = refl

agree→eq : (a b : Bool) → agree a b ≡ true → a ≡ b
agree→eq true true h = refl
agree→eq true false h = cc
agree→eq false true h = cc
agree→eq false false h = refl

small : (i : ℕ) → i < 4 → 0b11 * 2 ^ (i * 2) < 256
small zero h = omega arith
small (suc zero) h = omega arith
small (suc (suc zero)) h = omega arith
small (suc (suc (suc zero))) h = omega arith
small (suc (suc (suc (suc i)))) h = absurd (omega arith)

low_field : (c i : ℕ) → i < 4 → c % 256 / 2 ^ (i * 2) % 4 ≡ enable_bits c i
low_field c zero h = omega arith
low_field c (suc zero) h = omega arith
low_field c (suc (suc zero)) h = omega arith
low_field c (suc (suc (suc zero))) h = omega arith
low_field c (suc (suc (suc (suc i)))) h = absurd (omega arith)

-- The test of the loop at a slot.
is_free : (c i : ℕ) → i < 4 → (bit_and c (0b11 * 2 ^ (i * 2)) == 0) ≡ (enable_bits c i == 0)
unfolding slot_test
is_free c i h =
    ap (λ t. t == 0) (mask_low c (0b11 * 2 ^ (i * 2)) (small i h))
    ∙ agree→eq _ _ (
        all_below_sound 256 (slot_test i) (c % 256)
          (all_below_sound 4 (λ i. all_below 256 (slot_test i)) i slot_table h) (omega arith))
    ∙ ap (λ t. t == 0) (low_field c i h)

-- The loop from slot i on, for `left` slots: the first of them that is free, or that none is.
abbrev pub FirstFree : ℕ → ℕ → ℕ → Run ℕ → Type 0
FirstFree left i c (ok k) =
    (i ≤ k)
    × (k < i + left)
    × (enable_bits c k ≡ 0)
    × ((j : ℕ) → i ≤ j → j < k → enable_bits c j ≢ 0)
FirstFree left i c (throws e) = (j : ℕ) → i ≤ j → j < i + left → enable_bits c j ≢ 0
FirstFree left i c undefined = ⊥

found_free : (left i c : ℕ) → i < 4 → enable_bits c i ≡ 0 → find_free_from (suc left) i c ≡ ok i
unfolding find_free_from
found_free left i c h e = rw (is_free c i h, e) refl

passed_slot :
    (left i c : ℕ)
    → i < 4
    → enable_bits c i == 0 ≡ false
    → find_free_from (suc left) i c ≡ find_free_from left (i + 1) c
unfolding find_free_from
passed_slot left i c h e = rw (is_free c i h, e) refl

slot_in_use : (c i j : ℕ) → enable_bits c i == 0 ≡ false → j == i ≡ true → enable_bits c j ≡ 0 → ⊥
slot_in_use c i j e f z = not_zero (enable_bits c i) e (ap (enable_bits c) (sym (==→eq j i f)) ∙ z)
  where
    not_zero : (b : ℕ) → b == 0 ≡ false → b ≡ 0 → ⊥
    not_zero b e z = ground arith

-- One more slot in front, which is in use.
step-FirstFree :
    (left i c : ℕ) (r : Run ℕ)
    → enable_bits c i == 0 ≡ false
    → FirstFree left (i + 1) c r
    → FirstFree (suc left) i c r
step-FirstFree left i c (ok k) e (low, high, free, used) = (
  omega arith,
  omega arith,
  free,
  λ j l u z. elim (Bool-cases (j == i)) [
    | inl f ↦ slot_in_use c i j e f z
    | inr f ↦ used j (ground arith) u z
  ],
)
step-FirstFree left i c (throws x) e used = λ j l u z. elim (Bool-cases (j == i)) [
  | inl f ↦ slot_in_use c i j e f z
  | inr f ↦ used j (ground arith) (ground arith) z
]
step-FirstFree left i c undefined e h = h

find_free_from-FirstFree :
    (left i c : ℕ) → i + left ≤ 4 → FirstFree left i c (find_free_from left i c)
unfolding find_free_from
find_free_from-FirstFree zero i c h = λ j l u z. omega arith
find_free_from-FirstFree (suc left) i c h = elim (Bool-cases (enable_bits c i == 0)) [
  | inl e ↦
      rw (found_free left i c (omega arith) (==→eq (enable_bits c i) 0 e))
        (omega arith, omega arith, ==→eq (enable_bits c i) 0 e, λ j l u z. omega arith)
  | inr e ↦ rw (passed_slot left i c (omega arith) e) (
      step-FirstFree left i c (find_free_from left (i + 1) c) e
        (find_free_from-FirstFree left (i + 1) c (omega arith)))
]

-- FindFreeStoppointRegister returns the first of the four slots whose enable bits are both 0, and
-- throws exactly where every slot has one that is set.
pub find_free_stoppoint_register-FirstFree :
    (c : ℕ) → FirstFree 4 0 c (find_free_stoppoint_register c)
unfolding find_free_stoppoint_register
find_free_stoppoint_register-FirstFree c = find_free_from-FirstFree 4 0 c (omega arith)
