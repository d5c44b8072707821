-- ===== src/Common/Bits.antt =====
-- The bits of a number: `bit_at n i` is bit i of n, and the bitwise operations act bit by bit.
use Prim.Native.Nat.{ℕ, zero, suc, ◌+◌, ◌*◌, ◌/◌, ◌%◌, ◌^◌, ◌≤◌, ◌<◌, min, max}
use Prim.Native.Nat.{bit_and, bit_or, digits, bit_and-bitwise, bit_or-bitwise}
use mathlib.Core.Path.{◌≡◌, refl, ap, ap₂, ◌∙◌, sym}
use mathlib.Core.Bool.{Bool, true, false}
use native.Mathlib.Omega.{arith}
use native.Mathlib.Nat.{
  pow-suc, one-le-pow, add-mul-div_left, div-eq_of_lt, mod-lt, div-add-mod, mod-eq_of_lt,
  mul-add-mod_self_left,
}
use mathlib.Core.Logic.{◌⊎◌, inl, inr}
use building_a_debugger.Common.Tests.{◌==◌, ==_iff, ltb, ltb→lt, Bool-cases, if◌then◌else◌}

-- Bit i of n, by halving.
abbrev pub bit_at : ℕ → ℕ → ℕ
bit_at n zero = n % 2
bit_at n (suc i) = bit_at (n / 2) i

pub bit_at-lt : (n i : ℕ) → bit_at n i < 2
bit_at-lt n zero = omega arith
bit_at-lt n (suc i) = bit_at-lt (n / 2) i

pub bit_at-zero : (i : ℕ) → bit_at 0 i ≡ 0
bit_at-zero zero = refl
bit_at-zero (suc i) = bit_at-zero i

-- Numbers with the same bits are equal.
ext_below : (fuel a b : ℕ) → a ≤ fuel → b ≤ fuel → ((i : ℕ) → bit_at a i ≡ bit_at b i) → a ≡ b
ext_below zero a b ha hb h = omega arith
ext_below (suc fuel) a b ha hb h =
    omega (arith, h 0, ext_below fuel (a / 2) (b / 2) (omega arith) (omega arith) (λ i. h (suc i)))

pub bit_at_ext : (a b : ℕ) → ((i : ℕ) → bit_at a i ≡ bit_at b i) → a ≡ b
bit_at_ext a b h = ext_below (a + b) a b (omega arith) (omega arith) h

-- A number from its lowest bit and the rest.
bit_at-double : (r d i : ℕ) → d < 2 → bit_at (r * 2 + d) (suc i) ≡ bit_at r i
bit_at-double r d i h = ap (λ t. bit_at t i) (omega arith)

and_digits-bit :
    (n a b i : ℕ) → a ≤ n → bit_at (digits (λ b. zero) min n a b) i ≡ min (bit_at a i) (bit_at b i)
and_digits-bit zero zero b i h = omega (arith, bit_at-zero i)
and_digits-bit zero (suc a) b i h = absurd (omega arith)
and_digits-bit (suc n) zero b i h = omega (arith, bit_at-zero i)
and_digits-bit (suc n) (suc a) b zero h = omega arith
and_digits-bit (suc n) (suc a) b (suc i) h =
    bit_at-double (digits (λ b. zero) min n (suc a / 2) (b / 2)) (min (suc a % 2) (b % 2)) i
      (omega arith)
    ∙ and_digits-bit n (suc a / 2) (b / 2) i (omega arith)

or_digits-bit :
    (n a b i : ℕ) → a ≤ n → bit_at (digits (λ b. b) max n a b) i ≡ max (bit_at a i) (bit_at b i)
or_digits-bit zero zero b i h = omega (arith, bit_at-zero i)
or_digits-bit zero (suc a) b i h = absurd (omega arith)
or_digits-bit (suc n) zero b i h = omega (arith, bit_at-zero i)
or_digits-bit (suc n) (suc a) b zero h = omega arith
or_digits-bit (suc n) (suc a) b (suc i) h =
    bit_at-double (digits (λ b. b) max n (suc a / 2) (b / 2)) (max (suc a % 2) (b % 2)) i
      (omega arith)
    ∙ or_digits-bit n (suc a / 2) (b / 2) i (omega arith)

pub bit_at-and : (a b i : ℕ) → bit_at (bit_and a b) i ≡ min (bit_at a i) (bit_at b i)
bit_at-and a b i = ap (λ t. bit_at t i) (bit_and-bitwise a b) ∙ and_digits-bit a a b i (omega arith)

pub bit_at-or : (a b i : ℕ) → bit_at (bit_or a b) i ≡ max (bit_at a i) (bit_at b i)
bit_at-or a b i = ap (λ t. bit_at t i) (bit_or-bitwise a b) ∙ or_digits-bit a a b i (omega arith)

-- `q << k`
abbrev pub shl : ℕ → ℕ → ℕ
shl q k = q * 2 ^ k

shl-suc : (q k : ℕ) → q * 2 ^ suc k ≡ q * 2 ^ k * 2
shl-suc q k = omega (arith, ap (λ (t : ℕ). q * t) (pow-suc 2 k))

-- The bits of a sum whose parts do not overlap.
bit_at-join :
    (k r q i : ℕ) → r < 2 ^ k → bit_at (r + shl q k) i ≡ max (bit_at r i) (bit_at (shl q k) i)
bit_at-join zero r q i h = ap (λ t. bit_at t i) none_low ∙ only_high
  where
    none_low : r + shl q zero ≡ shl q zero
    none_low = omega arith

    only_high : bit_at (shl q zero) i ≡ max (bit_at r i) (bit_at (shl q zero) i)
    only_high = omega (arith, bit_at-zero i, ap (λ t. bit_at t i) empty)
      where
        empty : r ≡ 0
        empty = omega arith
bit_at-join (suc k) r q zero h = omega (arith, shl-suc q k)
bit_at-join (suc k) r q (suc i) h =
    ap (λ t. bit_at t i) split
    ∙ bit_at-join k (r / 2) q i (omega (arith, pow-suc 2 k))
    ∙ ap (λ t. max (bit_at (r / 2) i) (bit_at t i)) halved
  where
    split : (r + shl q (suc k)) / 2 ≡ r / 2 + shl q k
    split = omega (arith, shl-suc q k)

    halved : shl q k ≡ shl q (suc k) / 2
    halved = omega (arith, shl-suc q k)

-- `r |= q << k` adds when r fits k bits.
pub bit_or-shl : (k r q : ℕ) → r < 2 ^ k → bit_or r (shl q k) ≡ r + shl q k
bit_or-shl k r q h = bit_at_ext _ _ (λ i. bit_at-or r (shl q k) i ∙ sym (bit_at-join k r q i h))

-- Checking a property of every number below a bound by evaluation.
unfoldable pub all_below : ℕ → (ℕ → Bool) → Bool
all_below zero test = true
all_below (suc k) test = if test k then all_below k test else false

-- A test that a table has passed for all values below a bound holds of each of them.
pub all_below_sound :
    (k : ℕ) (test : ℕ → Bool) (v : ℕ) → all_below k test ≡ true → v < k → test v ≡ true
unfolding all_below
all_below_sound zero test v passed small = absurd (omega arith)
all_below_sound (suc k) test v passed small = ground (arith, all_below_sound k test v)

low_seven_table : all_below 256 (λ b. bit_and b 0x7f == b % 128) ≡ true
unfolding all_below
low_seven_table = refl

-- `byte & 0x7f` of a byte
pub bit_and-low_seven : (b : ℕ) → b < 256 → bit_and b 0x7f ≡ b % 128
bit_and-low_seven b h = (==_iff _ _).0 (all_below_sound 256 _ b low_seven_table h)

top_bit_table : all_below 256 (λ b. bit_and b 0x80 == b / 128 * 128) ≡ true
unfolding all_below
top_bit_table = refl

-- `byte & 0x80` of a byte
pub bit_and-top_bit : (b : ℕ) → b < 256 → bit_and b 0x80 ≡ b / 128 * 128
bit_and-top_bit b h = (==_iff _ _).0 (all_below_sound 256 _ b top_bit_table h)

sign_bit_table : all_below 256 (λ b. bit_and b 0x40 == b / 64 % 2 * 64) ≡ true
unfolding all_below
sign_bit_table = refl

-- `byte & 0x40` of a byte
pub bit_and-sign_bit : (b : ℕ) → b < 256 → bit_and b 0x40 ≡ b / 64 % 2 * 64
bit_and-sign_bit b h = (==_iff _ _).0 (all_below_sound 256 _ b sign_bit_table h)

div-twice : (a p : ℕ) → 0 < p → a / (2 * p) ≡ a / 2 / p
div-twice a p h =
    ap (λ t. t / (2 * p)) regroup
    ∙ add-mul-div_left (2 * (a / 2 % p) + a % 2) (a / 2 / p) {y = 2 * p} (omega arith)
    ∙ omega (arith, div-eq_of_lt small)
  where
    small : 2 * (a / 2 % p) + a % 2 < 2 * p
    small = omega (arith, mod-lt (a / 2) h)

    regroup : a ≡ 2 * (a / 2 % p) + a % 2 + 2 * p * (a / 2 / p)
    regroup = omega (arith, div-add-mod (a / 2) p)

-- The bits of a quotient and of a remainder by a power of two.
pub bit_at-shr : (n a i : ℕ) → bit_at (a / 2 ^ n) i ≡ bit_at a (n + i)
bit_at-shr zero a i = ap₂ bit_at whole start
  where
    whole : a / 2 ^ 0 ≡ a
    whole = omega arith

    start : i ≡ 0 + i
    start = omega arith
bit_at-shr (suc n) a i = ap (λ t. bit_at t i) halves ∙ bit_at-shr n (a / 2) i ∙ ap (bit_at a) later
  where
    halves : a / 2 ^ suc n ≡ a / 2 / 2 ^ n
    halves = ap (λ t. a / t) twice ∙ div-twice a (2 ^ n) (one-le-pow n 2 (omega arith))
      where
        twice : 2 ^ suc n ≡ 2 * 2 ^ n
        twice = omega (arith, pow-suc 2 n)

    later : suc (n + i) ≡ suc n + i
    later = omega arith

mod-twice : (a p : ℕ) → 0 < p → a % (2 * p) ≡ a / 2 % p * 2 + a % 2
mod-twice a p h =
    ap (λ t. t % (2 * p)) regroup
    ∙ mul-add-mod_self_left (2 * p) (a / 2 / p) (a / 2 % p * 2 + a % 2)
    ∙ mod-eq_of_lt small
  where
    small : a / 2 % p * 2 + a % 2 < 2 * p
    small = omega (arith, mod-lt (a / 2) h)

    regroup : a ≡ 2 * p * (a / 2 / p) + (a / 2 % p * 2 + a % 2)
    regroup = omega (arith, div-add-mod (a / 2) p)

mod-pow-suc : (a w : ℕ) → a % 2 ^ suc w ≡ a / 2 % 2 ^ w * 2 + a % 2
mod-pow-suc a w = ap (λ t. a % t) twice ∙ mod-twice a (2 ^ w) (one-le-pow w 2 (omega arith))
  where
    twice : 2 ^ suc w ≡ 2 * 2 ^ w
    twice = omega (arith, pow-suc 2 w)

pub bit_at-low : (w a i : ℕ) → bit_at (a % 2 ^ w) i ≡ (if ltb i w then bit_at a i else 0)
bit_at-low zero a i = ap (λ t. bit_at t i) nothing ∙ bit_at-zero i ∙ ground arith
  where
    nothing : a % 2 ^ zero ≡ 0
    nothing = omega arith
bit_at-low (suc w) a zero = ap (λ t. t % 2) (mod-pow-suc a w) ∙ ground arith
bit_at-low (suc w) a (suc i) =
    ap (λ t. bit_at t (suc i)) (mod-pow-suc a w)
    ∙ bit_at-double (a / 2 % 2 ^ w) (a % 2) i (omega arith)
    ∙ bit_at-low w (a / 2) i
    ∙ ground arith

-- Bits n to n + w - 1 of a number.
abbrev pub field : ℕ → ℕ → ℕ → ℕ
field a n w = a / 2 ^ n % 2 ^ w

pub bit_at-field :
    (a n w i : ℕ) → bit_at (field a n w) i ≡ (if ltb i w then bit_at a (n + i) else 0)
bit_at-field a n w i =
    bit_at-low w (a / 2 ^ n) i ∙ ap (λ t. if ltb i w then t else 0) (bit_at-shr n a i)

-- Two fields are equal if their bits are.
pub field_ext :
    (a m b n w : ℕ)
    → ((i : ℕ) → i < w → bit_at a (m + i) ≡ bit_at b (n + i))
    → field a m w ≡ field b n w
field_ext a m b n w h =
    bit_at_ext (field a m w) (field b n w)
      λ i. bit_at-field a m w i ∙ same i (Bool-cases (ltb i w)) ∙ sym (bit_at-field b n w i)
  where
    same :
        (i : ℕ)
        → (ltb i w ≡ true) ⊎ (ltb i w ≡ false)
        → (if ltb i w then bit_at a (m + i) else 0) ≡ (if ltb i w then bit_at b (n + i) else 0)
    same i (inl e) = rw e (h i (ltb→lt i w e))
    same i (inr e) = rw e
