-- ===== src/Parse.antt =====
-- include/libsdb/parse.hpp: numbers and byte vectors from text. A text is its list of characters.
-- std::from_chars is written out for integers: it reads the longest run of digits; where it has
-- none, or its number is out of range, the variable that it would set is left uninitialised.
pub mod Numbers
pub mod Vectors
use building_a_debugger.Common.{
  ℕ, zero, suc, ◌+◌, ◌-◌, ◌*◌, ◌^◌, Bool, true, false, ◌&&◌, not, List, [], ◌∷◌, ◌++◌, ltb, leb,
  ◌==◌, if◌then◌else◌, Option, none, some, length, take, drop, Run, ok, throws, undefined, ◌>>=◌,
  invalid_format, bad_optional_access,
}
use building_a_debugger.Common.Int.{ℤ, pos, negsuc}

-- The value of a character as a digit of a base.
unfoldable pub digit : ℕ → ℕ → Option ℕ
digit base c =
    let d =
      if leb b'0' c && leb c b'9'
      then c - b'0'
      else if leb b'a' c && leb c b'z'
      then c - b'a' + 10
      else if leb b'A' c && leb c b'Z'
      then c - b'A' + 10
      else base in
    if ltb d base then some d else none

-- The number that a run of digits stands for, and what follows the run.
unfoldable pub scan_digits : ℕ → ℕ → List ℕ → ℕ × List ℕ
unfolding digit
scan_digits base value [] = (value, [])
scan_digits base value (c ∷ cs) = elim (digit base c) [
  | none ↦ (value, c ∷ cs)
  | some d ↦ scan_digits base (value * base + d) cs
]

-- std::from_chars into an unsigned integer below a bound: the variable and `ptr`.
unfoldable pub from_chars : ℕ → ℕ → List ℕ → Option ℕ × List ℕ
unfolding scan_digits digit
from_chars bound base [] = (none, [])
from_chars bound base (c ∷ cs) = elim (digit base c) [
  | none ↦ (none, c ∷ cs)
  | some d ↦ let r = scan_digits base d cs in (if ltb r.0 bound then some r.0 else none, r.1)
]

-- A sign and digits as an `int`.
unfoldable pub signed_value : Bool → ℕ → Option ℤ
signed_value false n = if ltb n (2 ^ 31) then some (pos n) else none
signed_value true zero = some (pos 0)
signed_value true (suc n) = if ltb n (2 ^ 31) then some (negsuc n) else none

-- The digits behind the sign; without a digit `ptr` is the start of the whole text.
unfoldable pub from_chars_signed : Bool → ℕ → List ℕ → List ℕ → Option ℤ × List ℕ
unfolding scan_digits digit signed_value
from_chars_signed negative base text [] = (none, text)
from_chars_signed negative base text (c ∷ cs) = elim (digit base c) [
  | none ↦ (none, text)
  | some d ↦ let r = scan_digits base d cs in (signed_value negative r.0, r.1)
]

-- std::from_chars into an `int`.
unfoldable pub from_chars_int : ℕ → List ℕ → Option ℤ × List ℕ
unfolding from_chars_signed
from_chars_int base [] = (none, [])
from_chars_int base (c ∷ cs) =
    if c == b'-'
    then from_chars_signed true base (c ∷ cs) cs
    else from_chars_signed false base (c ∷ cs) (c ∷ cs)

-- A leading `0x` in base 16 is skipped.
unfoldable pub skip_prefix : ℕ → List ℕ → List ℕ
skip_prefix base (c ∷ d ∷ cs) = if base == 16 && (c == b'0' && d == b'x') then cs else c ∷ d ∷ cs
skip_prefix base text = text

-- The end of both `ToIntegral`s and of `ToFloat`: some input is left, or the variable is returned,
-- which is undefined where nothing has set it.
abbrev pub returned {ℓ} : {A : Type ℓ} → Option A × List ℕ → Run (Option A)
returned (ret, c ∷ rest) = ok none
returned (none, []) = undefined
returned (some v, []) = ok (some v)

-- ToIntegral into an unsigned integer below a bound.
unfoldable pub to_integral : ℕ → ℕ → List ℕ → Run (Option ℕ)
unfolding from_chars skip_prefix
to_integral bound base text = returned (from_chars bound base (skip_prefix base text))

-- ToIntegral<int>, in which a minus sign may lead.
unfoldable pub to_integral_int : ℕ → List ℕ → Run (Option ℤ)
unfolding from_chars_int skip_prefix
to_integral_int base text = returned (from_chars_int base (skip_prefix base text))

-- ToIntegral<std::byte>
unfoldable pub to_byte : ℕ → List ℕ → Run (Option ℕ)
unfolding to_integral
to_byte = to_integral 256

-- ToFloat, over what std::from_chars makes of the text as a floating point number.
abbrev pub to_float {ℓ} : {F : Type ℓ} → (List ℕ → Option F × List ℕ) → List ℕ → Run (Option F)
to_float float_from_chars text = returned (float_from_chars text)

-- std::optional::value
abbrev pub value {ℓ} : {A : Type ℓ} → Option A → Run A
value none = throws bad_optional_access
value (some a) = ok a

-- `ToIntegral<std::byte>({c, 4}, 16).value()`. `c` is the rest of the characters, the zero that
-- ends the text included, and a read behind it is undefined.
unfoldable pub vector_byte : List ℕ → Run ℕ
unfolding to_byte
vector_byte c = if ltb (length c) 4 then undefined else (to_byte 16 (take 4 c) >>= value)

-- `*c`
abbrev pub peek : List ℕ → Run ℕ
peek [] = undefined
peek (c ∷ cs) = ok c

-- `c == text.end()`, where the zero that ends the text stands.
abbrev pub at_end : List ℕ → Bool
at_end [] = false
at_end (c ∷ []) = true
at_end (c ∷ d ∷ cs) = false

-- `invalid()` unless a test passes.
abbrev pub check_format : Bool → Run (Unit {0})
check_format true = ok tt
check_format false = throws invalid_format

-- The while loop of ParseVector: the bytes and the closing bracket with what follows it. Each
-- round takes 4 characters at least.
unfoldable pub vector_loop : ℕ → List ℕ → List ℕ → Run (List ℕ × List ℕ)
unfolding vector_byte
vector_loop zero bytes c = undefined
vector_loop (suc fuel) bytes c =
    let next = vector_byte c >>= λ byte. peek (drop 4 c) >>= λ separator.
    let after_comma = vector_loop fuel (bytes ++ byte ∷ []) (drop 5 c) in
    let at_bracket = vector_loop fuel (bytes ++ byte ∷ []) (drop 4 c) in
    if separator == b','
    then after_comma
    else if separator == b']'
    then at_bracket
    else throws invalid_format in
    peek c >>= λ first. if first == b']' then ok (bytes, c) else next

-- Behind the opening bracket: the loop, and `++c != text.end()`.
unfoldable pub vector_items : List ℕ → Run (List ℕ)
unfolding vector_loop
vector_items c = do
  (bytes, c₁) ← vector_loop (length c) [] c
  _ ← check_format (at_end (drop 1 c₁))
  ok bytes

-- `*c++ != '['`
abbrev pub after_open : {A : Type 0} → (List ℕ → Run A) → List ℕ → Run A
after_open next c = peek c >>= λ first. check_format (first == b'[') >>= λ _. next (drop 1 c)

-- ParseVector into a vector.
unfoldable pub parse_vector : List ℕ → Run (List ℕ)
unfolding vector_items
parse_vector text = after_open vector_items (text ++ 0 ∷ [])

-- The for loop of ParseVector<N>: n bytes, with a comma behind each.
unfoldable pub sized_loop : ℕ → List ℕ → List ℕ → Run (List ℕ × List ℕ)
unfolding vector_byte
sized_loop zero bytes c = ok (bytes, c)
sized_loop (suc n) bytes c = do
  byte ← vector_byte c
  separator ← peek (drop 4 c)
  _ ← check_format (separator == b',')
  sized_loop n (bytes ++ byte ∷ []) (drop 5 c)

-- Behind the opening bracket: the loop, the last byte, and the two checks of the end.
unfoldable pub sized_items : ℕ → List ℕ → Run (List ℕ)
unfolding sized_loop vector_byte
sized_items n c = do
  (bytes, c₁) ← sized_loop (n - 1) [] c
  byte ← vector_byte c₁
  let c₂ = drop 4 c₁
  last ← peek c₂
  _ ← check_format (last == b']')
  _ ← check_format (at_end c₂)
  ok (bytes ++ byte ∷ [])

-- ParseVector<N>, which is called with N 8 and 16.
unfoldable pub parse_vector_sized : ℕ → List ℕ → Run (List ℕ)
unfolding sized_items
parse_vector_sized n text = after_open (sized_items n) (text ++ 0 ∷ [])
