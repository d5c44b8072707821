-- ===== src/Common/Masks.antt =====
-- Masks as arithmetic: `&` with a run of ones, at the bottom or above the low byte.
use Prim.Native.Nat.{ℕ, zero, suc, ◌+◌, ◌-◌, ◌*◌, ◌/◌, ◌%◌, ◌^◌, ◌<◌, min, bit_and, bit_or}
use mathlib.Core.Path.{◌≡◌, ap, ◌∙◌, sym}
use native.Mathlib.Omega.{arith}
use native.Mathlib.Nat.{pow-suc, one-le-pow}
use building_a_debugger.Common.Tests.{ltb, if◌then◌else◌}
use building_a_debugger.Common.Bits.{
  bit_at, bit_at-lt, bit_at-zero, bit_at_ext, bit_at-and, bit_at-or, bit_at-low, bit_or-shl,
}

bit_at-ones : (k i : ℕ) → bit_at (2 ^ k - 1) i ≡ (if ltb i k then 1 else 0)
bit_at-ones zero i = bit_at-zero i ∙ ground arith
bit_at-ones (suc k) zero = ground (arith, pow-suc 2 k, one-le-pow k 2)
bit_at-ones (suc k) (suc i) = ap (λ t. bit_at t i) halved ∙ bit_at-ones k i ∙ ground arith
  where
    halved : (2 ^ suc k - 1) / 2 ≡ 2 ^ k - 1
    halved = omega (arith, pow-suc 2 k)

-- `a & (2 ^ k - 1)`
pub bit_and-ones : (k a : ℕ) → bit_and a (2 ^ k - 1) ≡ a % 2 ^ k
bit_and-ones k a = bit_at_ext (bit_and a (2 ^ k - 1)) (a % 2 ^ k) λ i.
    ground (arith, bit_at-and a (2 ^ k - 1) i, bit_at-ones k i, bit_at-low k a i, bit_at-lt a i)

bit_and-even : (a m : ℕ) → bit_and a (m * 2) ≡ bit_and (a / 2) m * 2
bit_and-even a m = bit_at_ext (bit_and a (m * 2)) (bit_and (a / 2) m * 2) same
  where
    same : (i : ℕ) → bit_at (bit_and a (m * 2)) i ≡ bit_at (bit_and (a / 2) m * 2) i
    same zero = omega (arith, bit_at-and a (m * 2) 0)
    same (suc i) =
        bit_at-and a (m * 2) (suc i)
        ∙ ap (λ t. min (bit_at (a / 2) i) (bit_at t i)) halved
        ∙ sym (bit_at-and (a / 2) m i)
        ∙ ap (λ t. bit_at t i) whole
      where
        halved : m * 2 / 2 ≡ m
        halved = omega arith

        whole : bit_and (a / 2) m ≡ bit_and (a / 2) m * 2 / 2
        whole = omega arith

pub bit_or_comm : (a b : ℕ) → bit_or a b ≡ bit_or b a
bit_or_comm a b =
    bit_at_ext (bit_or a b) (bit_or b a) λ i. omega (arith, bit_at-or a b i, bit_at-or b a i)

-- `word & ~0xff` of a 64-bit word
pub bit_and-above_low_byte :
    (word : ℕ) → word < 2 ^ 64 → bit_and word (2 ^ 64 - 256) ≡ word / 256 * 256
bit_and-above_low_byte word h = omega (
  arith,
  bit_and-even word (2 ^ 63 - 128),
  bit_and-even (word / 2) (2 ^ 62 - 64),
  bit_and-even (word / 2 / 2) (2 ^ 61 - 32),
  bit_and-even (word / 2 / 2 / 2) (2 ^ 60 - 16),
  bit_and-even (word / 2 / 2 / 2 / 2) (2 ^ 59 - 8),
  bit_and-even (word / 2 / 2 / 2 / 2 / 2) (2 ^ 58 - 4),
  bit_and-even (word / 2 / 2 / 2 / 2 / 2 / 2) (2 ^ 57 - 2),
  bit_and-even (word / 2 / 2 / 2 / 2 / 2 / 2 / 2) (2 ^ 56 - 1),
  bit_and-ones 56 (word / 2 / 2 / 2 / 2 / 2 / 2 / 2 / 2),
)

-- `(word & ~0xff) | byte`
pub replace_low_byte_as_sum :
    (word byte : ℕ)
    → word < 2 ^ 64
    → byte < 256
    → bit_or (bit_and word (2 ^ 64 - 256)) byte ≡ byte + 256 * (word / 256)
replace_low_byte_as_sum word byte hw hb =
    ap (λ t. bit_or t byte) (bit_and-above_low_byte word hw)
    ∙ bit_or_comm (word / 256 * 256) byte
    ∙ bit_or-shl 8 byte (word / 256) hb
    ∙ omega arith
