-- ===== src/Dwarf/Cursor/Words.antt =====
-- Cursor::FixedInt where an integer has been written.
use building_a_debugger.Common.{
  ℕ, ◌+◌, ◌^◌, ◌<◌, ◌≡◌, refl, sym, ap, ◌∙◌, List, ◌++◌, ==_refl, length, take, drop, take-append,
  drop-append, drop-drop, ok,
}
use building_a_debugger.Common.Bytes.{from_bytes, as_bytes, length-as_bytes, from_bytes-as_bytes}
use building_a_debugger.Dwarf.Cursor.{Cursor, advance, fixed_int, u64}

pub fixed_int_at :
    (file : List ℕ) (n : ℕ) (c : Cursor) (bytes : List ℕ)
    → take n (drop c.pos file) ≡ bytes
    → length bytes ≡ n
    → fixed_int file n c ≡ ok (from_bytes bytes, advance n c)
unfolding fixed_int
fixed_int_at file n c bytes e size = rw (e, size, ==_refl n) refl

-- An integer of n bytes that has been written is read, and what follows it stands behind.
pub fixed_int_word :
    (file : List ℕ) (n : ℕ) (c : Cursor) (v : ℕ) (tail : List ℕ)
    → v < 256 ^ n
    → drop c.pos file ≡ as_bytes n v ++ tail
    → fixed_int file n c ≡ ok (v, advance n c)
fixed_int_word file n c v tail small e =
    fixed_int_at file n c (as_bytes n v) (ap (take n) e ∙ whole) (length-as_bytes n v)
    ∙ ap (λ t. ok (t, advance n c)) (from_bytes-as_bytes n v small)
  where
    whole : take n (as_bytes n v ++ tail) ≡ as_bytes n v
    whole =
        ap (λ k. take k (as_bytes n v ++ tail)) (sym (length-as_bytes n v))
        ∙ take-append (as_bytes n v) tail

pub behind_word :
    (file : List ℕ) (n p v : ℕ) (tail : List ℕ)
    → drop p file ≡ as_bytes n v ++ tail
    → drop (p + n) file ≡ tail
behind_word file n p v tail e =
    sym (drop-drop n p file)
    ∙ ap (drop n) e
    ∙ ap (λ k. drop k (as_bytes n v ++ tail)) (sym (length-as_bytes n v))
    ∙ drop-append (as_bytes n v) tail

pub u64_at :
    (file : List ℕ) (c : Cursor) (v : ℕ) (tail : List ℕ)
    → v < 2 ^ 64
    → drop c.pos file ≡ as_bytes 8 v ++ tail
    → u64 file c ≡ ok (v, advance 8 c)
unfolding u64
u64_at file c v tail small e = fixed_int_word file 8 c v tail small e

pub behind :
    (file : List ℕ) (p : ℕ) (v : ℕ) (tail : List ℕ)
    → drop p file ≡ as_bytes 8 v ++ tail
    → drop (p + 8) file ≡ tail
behind file p v tail e = behind_word file 8 p v tail e
