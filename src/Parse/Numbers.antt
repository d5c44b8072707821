-- ===== src/Parse/Numbers.antt =====
-- ToIntegral on numbers that have been printed.
use native.Mathlib.Nat.{mod-lt, div-add-mod', div-lt_self}
use building_a_debugger.Common.{
  ℕ, zero, suc, ◌+◌, ◌-◌, ◌*◌, ◌/◌, ◌%◌, ◌≤◌, ◌<◌, ◌≡◌, refl, ap, ◌∙◌, inl, inr, Bool, true, false,
  List, [], ◌∷◌, ltb, lt→ltb, ltb→lt, Bool-cases, Option-cases, if◌then◌else◌, Option, none, some,
  Run, ok, undefined, arith,
}
use building_a_debugger.Parse.{digit, scan_digits, from_chars, skip_prefix, returned, to_integral}

-- The character of a digit below 36.
abbrev pub digit_char : ℕ → ℕ
digit_char d = if ltb d 10 then d + b'0' else d - 10 + b'a'

-- A number in a base, in front of a text.
unfoldable pub print_loop : ℕ → ℕ → ℕ → List ℕ → List ℕ
print_loop zero base n tail = tail
print_loop (suc fuel) base n tail =
    let more = print_loop fuel base (n / base) (digit_char (n % base) ∷ tail) in
    if ltb n base then digit_char n ∷ tail else more

unfoldable pub print : ℕ → ℕ → List ℕ
unfolding print_loop
print base n = print_loop (suc n) base n []

pub digit-digit_char : (base d : ℕ) → d < base → base ≤ 36 → digit base (digit_char d) ≡ some d
unfolding digit
digit-digit_char base d h k = ground arith

-- What from_chars returns for the number and the rest of a run of digits.
abbrev finish : ℕ → ℕ × List ℕ → Option ℕ × List ℕ
finish bound r = (if ltb r.0 bound then some r.0 else none, r.1)

from_chars-digit :
    (bound base c d : ℕ) (cs : List ℕ)
    → digit base c ≡ some d
    → from_chars bound base (c ∷ cs) ≡ finish bound (scan_digits base d cs)
unfolding from_chars
from_chars-digit bound base c d cs e = rw (e, from_chars) refl

scan_digits-digit :
    (base v c d : ℕ) (cs : List ℕ)
    → digit base c ≡ some d
    → scan_digits base v (c ∷ cs) ≡ scan_digits base (v * base + d) cs
unfolding scan_digits
scan_digits-digit base v c d cs e = rw (e, scan_digits) refl

-- The digits of a number are read back, in front of any text.
from_chars-print_loop :
    (fuel bound base n : ℕ) (tail : List ℕ)
    → n < fuel
    → 2 ≤ base
    → base ≤ 36
    → from_chars bound base (print_loop fuel base n tail) ≡ finish bound (scan_digits base n tail)
unfolding print_loop
from_chars-print_loop zero bound base n tail h low high = absurd (omega arith)
from_chars-print_loop (suc fuel) bound base n tail h low high = elim (Bool-cases (ltb n base)) [
  | inl small ↦ rw small (
      from_chars-digit bound base (digit_char n) n tail
        (digit-digit_char base n (ltb→lt n base small) high))
  | inr large ↦ rw large (
      from_chars-print_loop fuel bound base (n / base) (digit_char (n % base) ∷ tail)
        (shrinks fuel n base large h low) low high
      ∙ ap (finish bound) (
          scan_digits-digit base (n / base) (digit_char (n % base)) (n % base) tail
            (digit-digit_char base (n % base) (mod-lt n (omega arith)) high)
          ∙ ap (λ v. scan_digits base v tail) (div-add-mod' n base)))
]
  where
    shrinks : (fuel n base : ℕ) → ltb n base ≡ false → n < suc fuel → 2 ≤ base → n / base < fuel
    shrinks fuel n base large h low =
        let larger : base ≤ n = ground arith in
        omega (arith, div-lt_self {n = n} {k = base} (omega arith) (omega arith))

from_chars-print :
    (bound base n : ℕ)
    → n < bound
    → 2 ≤ base
    → base ≤ 36
    → from_chars bound base (print base n) ≡ (some n, [])
unfolding print scan_digits
from_chars-print bound base n h low high =
    from_chars-print_loop (suc n) bound base n [] (omega arith) low high
    ∙ rw (lt→ltb n bound h) refl

skip_prefix-decimal : (text : List ℕ) → skip_prefix 10 text ≡ text
unfolding skip_prefix
skip_prefix-decimal [] = refl
skip_prefix-decimal (c ∷ []) = refl
skip_prefix-decimal (c ∷ d ∷ cs) = refl

-- Numbers that are printed are read back: ToIntegral returns a number below the bound of
-- its type from its digits in decimal, and from `0x` and its digits in hexadecimal.
pub to_integral-print :
    (bound n : ℕ)
    → n < bound
    → (to_integral bound 10 (print 10 n) ≡ ok (some n))
      × (to_integral bound 16 (b'0' ∷ b'x' ∷ print 16 n) ≡ ok (some n))
unfolding to_integral
to_integral-print bound n h = (
  ap (λ t. returned (from_chars bound 10 t)) (skip_prefix-decimal (print 10 n))
      ∙ ap returned (from_chars-print bound 10 n h (omega arith) (omega arith)),
  unfold skip_prefix in ap returned (from_chars-print bound 16 n h (omega arith) (omega arith)),
)

-- The characters of a text are all digits of a base, and the number that they stand for.
abbrev pub all_digits : ℕ → List ℕ → Bool
all_digits base [] = true
all_digits base (c ∷ cs) = elim (digit base c) [ none ↦ false | some d ↦ all_digits base cs ]

abbrev pub number : ℕ → ℕ → List ℕ → ℕ
number base v [] = v
number base v (c ∷ cs) = elim (digit base c) [ none ↦ v | some d ↦ number base (v * base + d) cs ]

abbrev pub is_empty : List ℕ → Bool
is_empty [] = true
is_empty (c ∷ cs) = false

abbrev pub defined_below : ℕ → ℕ → Run (Option ℕ)
defined_below bound n = if ltb n bound then ok (some n) else undefined

-- What a text behind its prefix means as an integer below a bound.
abbrev pub meaning : ℕ → ℕ → List ℕ → Run (Option ℕ)
meaning bound base text =
    if all_digits base text
    then (if is_empty text then undefined else defined_below bound (number base 0 text))
    else ok none

returned-scan :
    (bound base v : ℕ) (cs : List ℕ)
    → returned (finish bound (scan_digits base v cs))
      ≡ (if all_digits base cs then defined_below bound (number base v cs) else ok none)
unfolding scan_digits
returned-scan bound base v [] = elim (Bool-cases (ltb v bound)) [
  | inl e ↦ rw e refl
  | inr e ↦ rw e refl
]
returned-scan bound base v (c ∷ cs) = elim (Option-cases (digit base c)) [
  | inl e ↦ rw (e, scan_digits, all_digits, number) refl
  | inr (d, e) ↦
      rw (e, scan_digits, all_digits, number) (returned-scan bound base (v * base + d) cs)
]

-- On every text, ToIntegral into an unsigned integer returns the number that its characters behind
-- the prefix stand for, if they are digits and the number is in range, and the empty optional if one
-- of them is no digit. On an empty text and on a number out of range the returned variable has not
-- been set, which is undefined.
pub to_integral-meaning :
    (bound base : ℕ) (text : List ℕ)
    → to_integral bound base text ≡ meaning bound base (skip_prefix base text)
unfolding to_integral
to_integral-meaning bound base text = on_body (skip_prefix base text)
  where
    on_body : (body : List ℕ) → returned (from_chars bound base body) ≡ meaning bound base body
    on_body [] = unfold from_chars in refl
    on_body (c ∷ cs) = elim (Option-cases (digit base c)) [
      | inl e ↦ unfold from_chars in rw (e, from_chars, all_digits) refl
      | inr (d, e) ↦ rw (from_chars-digit bound base c d cs e) (
          let start : 0 * base + d ≡ d = omega arith in
          rw (e, all_digits, number) (rw start (returned-scan bound base d cs)))
    ]
