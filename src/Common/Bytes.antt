-- ===== src/Common/Bytes.antt =====
-- Little-endian byte strings, as `FromBytes` and `memcpy` read and write integers on x64.
use Prim.Native.Nat.{ℕ, zero, suc, ◌+◌, ◌*◌, ◌/◌, ◌%◌, ◌^◌, ◌<◌}
use mathlib.Core.Path.{◌≡◌, refl, ap}
use mathlib.Core.List.{List, [], ◌∷◌}
use native.Mathlib.Omega.{arith}
use native.Mathlib.Nat.{pow-suc}
use building_a_debugger.Common.Lists.{length, All}

abbrev pub IsByte : ℕ → Type 0
IsByte b = b < 256

-- `FromBytes`: the integer whose bytes are given, lowest first.
abbrev pub from_bytes : List ℕ → ℕ
from_bytes [] = 0
from_bytes (b ∷ bs) = b + 256 * from_bytes bs

-- `AsBytes`: the n bytes of an integer, lowest first.
abbrev pub as_bytes : ℕ → ℕ → List ℕ
as_bytes zero v = []
as_bytes (suc n) v = v % 256 ∷ as_bytes n (v / 256)

pub length-as_bytes : (n v : ℕ) → length (as_bytes n v) ≡ n
length-as_bytes zero v = refl
length-as_bytes (suc n) v = ap suc (length-as_bytes n (v / 256))

pub as_bytes-IsByte : (n v : ℕ) → All IsByte (as_bytes n v)
as_bytes-IsByte zero v = tt
as_bytes-IsByte (suc n) v = (omega arith, as_bytes-IsByte n (v / 256))

-- Writing an integer of n bytes and reading it back gives it.
pub from_bytes-as_bytes : (n v : ℕ) → v < 256 ^ n → from_bytes (as_bytes n v) ≡ v
from_bytes-as_bytes zero v h = omega arith
from_bytes-as_bytes (suc n) v h =
    omega (arith, from_bytes-as_bytes n (v / 256) (omega (arith, pow-suc 256 n)))

pub as_bytes-from_bytes : (bs : List ℕ) → All IsByte bs → as_bytes (length bs) (from_bytes bs) ≡ bs
as_bytes-from_bytes [] h = refl
as_bytes-from_bytes (b ∷ bs) h = ground (arith, head, tail, as_bytes-from_bytes bs h.1)
  where
    head : (b + 256 * from_bytes bs) % 256 ≡ b
    head = omega arith

    tail : (b + 256 * from_bytes bs) / 256 ≡ from_bytes bs
    tail = omega arith

pub from_bytes-lt : (bs : List ℕ) → All IsByte bs → from_bytes bs < 256 ^ length bs
from_bytes-lt [] h = omega arith
from_bytes-lt (b ∷ bs) h = omega (arith, from_bytes-lt bs h.1, pow-suc 256 (length bs))
