-- ===== src/Process/Memory/Chunks.antt =====
-- The remote ranges of Process::ReadMemory of src/process.cpp, and what is transferred for them.
use building_a_debugger.Common.{
  Bool, true, false, ltb, ltb→lt, ltb_false→le, ◌/◌, Bool-cases, ℕ, zero, suc, ◌+◌, ◌-◌, ◌%◌, ◌^◌,
  ◌≤◌, ◌<◌, min, bit_and, ◌≡◌, refl, sym, ap, ap₂, ◌∙◌, List, [], ◌∷◌, ◌++◌, arith, length, inl,
  inr,
}
use building_a_debugger.Common.Masks.{bit_and-ones}
use building_a_debugger.Address.{add64}
use building_a_debugger.Kernel.{bytes_at, is_readable, transferred, ReadableIn}
use building_a_debugger.Process.Memory.{remote_ranges}

-- What is left of a page at an address.
left_of_page : (a : ℕ) → 0x1000 - bit_and a 0xfff ≡ 4096 - a % 4096
left_of_page a = omega (arith, bit_and-ones 12 a)

pub bytes_at-split :
    (memory : ℕ → ℕ) (a m n : ℕ)
    → bytes_at memory a (m + n) ≡ bytes_at memory a m ++ bytes_at memory (a + m) n
bytes_at-split memory a zero n = ap₂ (bytes_at memory) start whole
  where
    start : a ≡ a + 0
    start = omega arith

    whole : 0 + n ≡ n
    whole = omega arith
bytes_at-split memory a (suc m) n =
    ap (bytes_at memory a) longer
    ∙ ap (λ bs. memory a ∷ bs) (bytes_at-split memory (a + 1) m n)
    ∙ ap (λ t. memory a ∷ (bytes_at memory (a + 1) m ++ bytes_at memory t n)) later
  where
    longer : suc m + n ≡ suc (m + n)
    longer = omega arith

    later : a + 1 + m ≡ a + suc m
    later = omega arith

-- Only an address behind the last byte wraps.
pub bytes_at-add64 :
    (memory : ℕ → ℕ) (a m n : ℕ)
    → a + m + n ≤ 2 ^ 64
    → bytes_at memory (add64 a m) n ≡ bytes_at memory (a + m) n
bytes_at-add64 memory a m zero h = refl
bytes_at-add64 memory a m (suc n) h = ap (λ t. bytes_at memory t (suc n)) inside
  where
    inside : add64 a m ≡ a + m
    inside = omega arith

pub length-bytes_at : (memory : ℕ → ℕ) (a n : ℕ) → length (bytes_at memory a n) ≡ n
length-bytes_at memory a zero = refl
length-bytes_at memory a (suc n) = ap suc (length-bytes_at memory (a + 1) n)

-- The next range, where bytes are left to read.
pub remote_ranges-step :
    (fuel amount address : ℕ)
    → 0 < amount
    → let chunk = min amount (4096 - address % 4096) in
      remote_ranges (suc fuel) amount address
      ≡ (address, chunk) ∷ remote_ranges fuel (amount - chunk) (add64 address chunk)
unfolding remote_ranges
remote_ranges-step fuel amount address h = rw left_of_page (ground arith)

pub remote_ranges-none : (fuel address : ℕ) → remote_ranges fuel 0 address ≡ []
unfolding remote_ranges
remote_ranges-none zero address = refl
remote_ranges-none (suc fuel) address = refl

-- A range inside a page can be read as a whole, or its first byte cannot.
is_readable-page :
    (readable : ℕ → Bool)
    → ((a b : ℕ) → a / 4096 ≡ b / 4096 → readable a ≡ readable b)
    → (a n : ℕ) → a % 4096 + n ≤ 4096
    → readable a ≡ true
    → is_readable readable a n ≡ true
unfolding is_readable
is_readable-page readable page a zero h e = refl
is_readable-page readable page a (suc zero) h e = rw e refl
is_readable-page readable page a (suc (suc n)) h e =
    let next : a / 4096 ≡ (a + 1) / 4096 = omega arith in
    rw e
      (is_readable-page readable page (a + 1) (suc n) (omega arith) (sym (page a (a + 1) next) ∙ e))

pub is_readable-first :
    (readable : ℕ → Bool) (a n : ℕ) → 0 < n → readable a ≡ false → is_readable readable a n ≡ false
unfolding is_readable
is_readable-first readable a zero h e = absurd (omega arith)
is_readable-first readable a (suc n) h e = rw e refl

is_readable-all :
    (readable : ℕ → Bool) (a n : ℕ)
    → ReadableIn readable a (a + n)
    → is_readable readable a n ≡ true
unfolding is_readable
is_readable-all readable a zero h = refl
is_readable-all readable a (suc n) h =
    rw (h a (omega arith) (omega arith))
      (is_readable-all readable (a + 1) n (λ b l u. h b (omega arith) (omega arith)))

-- A number of bytes from an address on: all of them can be read, and if there are fewer than are asked
-- for, the next one cannot.
abbrev pub Reaches : (ℕ → Bool) → ℕ → ℕ → ℕ → Type 0
Reaches readable address amount n =
    (n ≤ amount)
    × ReadableIn readable address (address + n)
    × (n < amount → readable (address + n) ≡ false)

module _ (memory : ℕ → ℕ) (readable : ℕ → Bool)
    (page : (a b : ℕ) → a / 4096 ≡ b / 4096 → readable a ≡ readable b) where
  transferred-cons :
      (a n : ℕ) (ranges : List (ℕ × ℕ))
      → is_readable readable a n ≡ true
      → transferred memory readable ((a, n) ∷ ranges)
        ≡ bytes_at memory a n ++ transferred memory readable ranges
  unfolding transferred
  transferred-cons a n ranges e = rw e refl

  transferred-cut :
      (a n : ℕ) (ranges : List (ℕ × ℕ))
      → is_readable readable a n ≡ false
      → transferred memory readable ((a, n) ∷ ranges) ≡ []
  unfolding transferred
  transferred-cut a n ranges e = rw e refl

  transferred-nil : transferred memory readable [] ≡ []
  unfolding transferred
  transferred-nil = refl

  -- A chunk inside a page, and what the rest reaches.
  Reaches-chunk :
      (address amount chunk n : ℕ)
      → address + amount ≤ 2 ^ 64
      → chunk ≤ amount
      → address % 4096 + chunk ≤ 4096
      → readable address ≡ true
      → Reaches readable (add64 address chunk) (amount - chunk) n
      → Reaches readable address amount (chunk + n)
  Reaches-chunk address amount chunk n inside small in_page e (fits, read, stops) = (
    omega arith,
    (λ a l u. elim (Bool-cases (ltb a (address + chunk))) [
      | inl h ↦ page a address (same_page a l (ltb→lt a (address + chunk) h)) ∙ e
      | inr h ↦
          read a (above a (ltb_false→le a (address + chunk) h) u)
            (below a (ltb_false→le a (address + chunk) h) u)
    ]),
    λ h. ap readable (next h) ∙ stops (omega arith),
  )
    where
      same_page : (a : ℕ) → address ≤ a → a < address + chunk → a / 4096 ≡ address / 4096
      same_page a l u = omega arith

      above : (a : ℕ) → address + chunk ≤ a → a < address + (chunk + n) → add64 address chunk ≤ a
      above a l u = omega arith

      below :
          (a : ℕ) → address + chunk ≤ a → a < address + (chunk + n) → a < add64 address chunk + n
      below a l u = omega arith

      next : chunk + n < amount → address + (chunk + n) ≡ add64 address chunk + n
      next h = omega arith

  -- What is transferred for the remote ranges.
  pub remote-transferred :
      (fuel amount address : ℕ)
      → amount ≤ fuel
      → address + amount ≤ 2 ^ 64
      → (n : ℕ) × Reaches readable address amount n
        × (transferred memory readable (remote_ranges fuel amount address)
            ≡ bytes_at memory address n)
  remote-transferred fuel zero address enough inside = (
    0,
    (omega arith, (λ a l u. absurd (omega arith)), λ h. absurd (omega arith)),
    ap (transferred memory readable) (remote_ranges-none fuel address) ∙ transferred-nil,
  )
  remote-transferred zero (suc n) address enough inside = absurd (omega arith)
  remote-transferred (suc fuel) (suc k) address enough inside =
      let chunk = min (suc k) (4096 - address % 4096) in
      let next = add64 address chunk in
      let (n, reaches, bytes) =
        remote-transferred fuel (suc k - chunk) next (omega arith) (omega arith) in
      let step = remote_ranges-step fuel (suc k) address (omega arith) in
      let ranges = remote_ranges fuel (suc k - chunk) next in
      elim (Bool-cases (readable address)) [
        | inl e ↦ (
          chunk + n,
          Reaches-chunk address (suc k) chunk n inside (omega arith) (omega arith) e reaches,
          ap (transferred memory readable) step
              ∙ transferred-cons address chunk ranges
                  (is_readable-page readable page address chunk (omega arith) e)
              ∙ ap (λ bs. bytes_at memory address chunk ++ bs)
                  (bytes ∙ bytes_at-add64 memory address chunk n (omega (arith, reaches.0)))
              ∙ sym (bytes_at-split memory address chunk n),
        )
        | inr e ↦ (
          0,
          (omega arith, (λ a l u. absurd (omega arith)), λ h. ap readable (start address) ∙ e),
          ap (transferred memory readable) step
              ∙ transferred-cut address chunk ranges
                  (is_readable-first readable address chunk (omega arith) e),
        )
      ]
    where
      start : (a : ℕ) → a + 0 ≡ a
      start a = omega arith
