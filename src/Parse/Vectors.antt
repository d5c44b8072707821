-- ===== src/Parse/Vectors.antt =====
-- ParseVector on vectors that have been printed, and what becomes of ParseVector<N>.
use mathlib.Core.List.{append_assoc, append-nil}
use building_a_debugger.Common.{
  ℕ, zero, suc, ◌+◌, ◌-◌, ◌*◌, ◌/◌, ◌%◌, ◌<◌, ◌≡◌, ◌≢◌, refl, sym, ap, ◌∙◌, subst, false, List, [],
  ◌∷◌, ◌++◌, ltb_ge, ◌==◌, ==_ne, if◌then◌else◌, Option, none, some, length, drop, All, Run, ok,
  throws, undefined, ◌>>=◌, bind-ne-ok, bind-eq-ok, ok-injective, bad_optional_access, arith,
}
use building_a_debugger.Common.Bytes.{IsByte}
use building_a_debugger.Parse.{
  digit, scan_digits, from_chars, skip_prefix, returned, to_integral, to_byte, value, vector_byte,
  peek, at_end, check_format, vector_loop, vector_items, parse_vector, sized_loop, sized_items,
  parse_vector_sized,
}
use building_a_debugger.Parse.Numbers.{
  digit_char, digit-digit_char, all_digits, number, is_empty, defined_below, to_integral-meaning,
}

-- `0x` and two digits.
abbrev pub hex_byte : ℕ → List ℕ → List ℕ
hex_byte b rest = b'0' ∷ b'x' ∷ digit_char (b / 16) ∷ digit_char (b % 16) ∷ rest

-- Bytes with commas between them, and the closing bracket.
abbrev pub print_items : List ℕ → List ℕ
print_items [] = b']' ∷ []
print_items (b ∷ []) = hex_byte b (b']' ∷ [])
print_items (b ∷ c ∷ bs) = hex_byte b (b',' ∷ print_items (c ∷ bs))

two_digits :
    (x y d e : ℕ)
    → digit 16 x ≡ some d
    → digit 16 y ≡ some e
    → d * 16 + e < 256
    → from_chars 256 16 (x ∷ y ∷ []) ≡ (some (d * 16 + e), [])
unfolding from_chars scan_digits
two_digits x y d e hx hy small = rw (hx, hy, from_chars, scan_digits) (ground arith)

to_byte-hex : (b : ℕ) → b < 256 → to_byte 16 (hex_byte b []) ≡ ok (some b)
unfolding to_byte to_integral skip_prefix
to_byte-hex b h =
    ap returned (
      two_digits (digit_char (b / 16)) (digit_char (b % 16)) (b / 16) (b % 16)
        (digit-digit_char 16 (b / 16) (omega arith) (omega arith))
        (digit-digit_char 16 (b % 16) (omega arith) (omega arith)) (omega arith))
    ∙ ap (λ v. ok (some v)) (omega arith)

vector_byte-hex : (b : ℕ) (rest : List ℕ) → b < 256 → vector_byte (hex_byte b rest) ≡ ok b
unfolding vector_byte
vector_byte-hex b rest h =
    rw (ltb_ge (length (hex_byte b rest)) 4 (omega arith)) (rw (to_byte-hex b h) refl)

vector_loop-bracket :
    (fuel : ℕ) (bytes tail : List ℕ)
    → 0 < fuel
    → vector_loop fuel bytes (b']' ∷ tail) ≡ ok (bytes, b']' ∷ tail)
unfolding vector_loop
vector_loop-bracket zero bytes tail h = absurd (omega arith)
vector_loop-bracket (suc fuel) bytes tail h = refl

vector_loop-comma :
    (fuel b : ℕ) (bytes rest : List ℕ)
    → b < 256
    → vector_loop (suc fuel) bytes (hex_byte b (b',' ∷ rest))
      ≡ vector_loop fuel (bytes ++ b ∷ []) rest
unfolding vector_loop
vector_loop-comma fuel b bytes rest h = rw (vector_byte-hex b (b',' ∷ rest) h) refl

vector_loop-last :
    (fuel b : ℕ) (bytes rest : List ℕ)
    → b < 256
    → vector_loop (suc fuel) bytes (hex_byte b (b']' ∷ rest))
      ≡ vector_loop fuel (bytes ++ b ∷ []) (b']' ∷ rest)
unfolding vector_loop
vector_loop-last fuel b bytes rest h = rw (vector_byte-hex b (b']' ∷ rest) h) refl

vector_loop-items :
    (fuel : ℕ) (bytes bs tail : List ℕ)
    → All IsByte bs
    → length bs < fuel
    → vector_loop fuel bytes (print_items bs ++ tail) ≡ ok (bytes ++ bs, b']' ∷ tail)
vector_loop-items zero bytes bs tail small h = absurd (omega arith)
vector_loop-items (suc fuel) bytes [] tail small h =
    vector_loop-bracket (suc fuel) bytes tail (omega arith)
    ∙ ap (λ t. ok (t, b']' ∷ tail)) (sym (append-nil bytes))
vector_loop-items (suc fuel) bytes (b ∷ []) tail small h =
    vector_loop-last fuel b bytes tail small.0
    ∙ vector_loop-bracket fuel (bytes ++ b ∷ []) tail (omega arith)
vector_loop-items (suc fuel) bytes (b ∷ c ∷ bs) tail small h =
    vector_loop-comma fuel b bytes (print_items (c ∷ bs) ++ tail) small.0
    ∙ vector_loop-items fuel (bytes ++ b ∷ []) (c ∷ bs) tail small.1 (omega arith)
    ∙ ap (λ t. ok (t, b']' ∷ tail)) (append_assoc bytes (b ∷ []) (c ∷ bs))

length-print_items : (bs tail : List ℕ) → length bs < length (print_items bs ++ tail)
length-print_items [] tail = omega arith
length-print_items (b ∷ []) tail = omega arith
length-print_items (b ∷ c ∷ bs) tail = omega (arith, length-print_items (c ∷ bs) tail)

-- A vector that is written as ParseVector expects it, each byte as `0x` and two digits, with commas
-- between the bytes and brackets around them, is read back.
pub parse_vector-print :
    (bytes : List ℕ) → All IsByte bytes → parse_vector (b'[' ∷ print_items bytes) ≡ ok bytes
unfolding parse_vector vector_items
parse_vector-print bytes small =
    ap (λ r. r >>= λ r. check_format (at_end (drop 1 r.1)) >>= λ _. ok r.0)
      (vector_loop-items (length (print_items bytes ++ 0 ∷ [])) [] bytes (0 ∷ []) small
        (length-print_items bytes (0 ∷ [])))

-- Four characters that are not `0x` and two digits, nor four digits.
abbrev pub Malformed : ℕ → ℕ → ℕ → ℕ → Type 0
Malformed a b c d = all_digits 16 (skip_prefix 16 (a ∷ b ∷ c ∷ d ∷ [])) ≡ false

vector_byte-Malformed :
    (a b c d : ℕ) (rest : List ℕ)
    → Malformed a b c d
    → vector_byte (a ∷ b ∷ c ∷ d ∷ rest) ≡ throws bad_optional_access
unfolding vector_byte to_byte
vector_byte-Malformed a b c d rest h = rw (ltb_ge (length (a ∷ b ∷ c ∷ d ∷ rest)) 4 (omega arith)) (
    ap (λ r. r >>= value)
      (to_integral-meaning 256 16 (a ∷ b ∷ c ∷ d ∷ []) ∙ ap (λ t. if t then filled else ok none) h))
  where
    filled : Run (Option ℕ)
    filled =
        let body = skip_prefix 16 (a ∷ b ∷ c ∷ d ∷ []) in
        if is_empty body then undefined else defined_below 256 (number 16 0 body)

pub parse_vector-Malformed :
    (a b c d : ℕ) (rest : List ℕ)
    → a ≢ b']'
    → Malformed a b c d
    → parse_vector (b'[' ∷ a ∷ b ∷ c ∷ d ∷ rest) ≡ throws bad_optional_access
unfolding parse_vector vector_items vector_loop
parse_vector-Malformed a b c d rest not_end h =
    rw (==_ne a b']' not_end) (rw (vector_byte-Malformed a b c d (rest ++ 0 ∷ []) h) refl)

-- The characters end with a zero.
abbrev Ended : List ℕ → Type 0
Ended [] = Unit {0}
Ended (c ∷ []) = c ≡ 0
Ended (c ∷ d ∷ cs) = Ended (d ∷ cs)

Ended-append : (text : List ℕ) → Ended (text ++ 0 ∷ [])
Ended-append [] = refl
Ended-append (c ∷ []) = refl
Ended-append (c ∷ d ∷ cs) = Ended-append (d ∷ cs)

Ended-drop : (n : ℕ) (c : List ℕ) → Ended c → Ended (drop n c)
Ended-drop zero c h = h
Ended-drop (suc n) [] h = tt
Ended-drop (suc n) (c ∷ []) h = Ended-drop n [] tt
Ended-drop (suc n) (c ∷ d ∷ cs) h = Ended-drop n (d ∷ cs) h

-- The two checks at the end of ParseVector<N> exclude each other.
end_checks-fail :
    (c bytes : List ℕ) (out : List ℕ)
    → Ended c
    → (peek c >>= λ last.
        check_format (last == b']') >>= λ _. check_format (at_end c) >>= λ _. ok bytes)
      ≢ ok out
end_checks-fail [] bytes out h e = cc
end_checks-fail (c ∷ []) bytes out h e = ground arith
end_checks-fail (c ∷ d ∷ cs) bytes out h e = ground arith

sized_loop-Ended :
    (n : ℕ) (bytes c : List ℕ) (out : List ℕ × List ℕ)
    → Ended c
    → sized_loop n bytes c ≡ ok out
    → Ended out.1
unfolding sized_loop
sized_loop-Ended zero bytes c out h e = subst Ended (ap (λ r. r.1) (ok-injective e)) h
sized_loop-Ended (suc n) bytes c out h e =
    let (byte, _, e₁) = bind-eq-ok (vector_byte c) _ out e in
    let (separator, _, e₂) = bind-eq-ok (peek (drop 4 c)) _ out e₁ in
    let (_, _, e₃) = bind-eq-ok (check_format (separator == b',')) _ out e₂ in
    sized_loop-Ended n (bytes ++ byte ∷ []) (drop 5 c) out (Ended-drop 5 c h) e₃

sized_items-fail : (n : ℕ) (c out : List ℕ) → Ended c → sized_items n c ≢ ok out
unfolding sized_items
sized_items-fail n c out h = bind-ne-ok (sized_loop (n - 1) [] c) _ out λ r e.
    let ended : Ended r.1 = sized_loop-Ended (n - 1) [] c r h e in
    bind-ne-ok (vector_byte r.1) _ out
      λ byte _. end_checks-fail (drop 4 r.1) (r.0 ++ byte ∷ []) out (Ended-drop 4 r.1 ended)

-- ParseVector<N> never returns, whatever the text: it wants the closing bracket at the same place
-- as the end of the text.
pub parse_vector_sized-fail : (n : ℕ) (text out : List ℕ) → parse_vector_sized n text ≢ ok out
unfolding parse_vector_sized
parse_vector_sized-fail n text out =
    let c : List ℕ = text ++ 0 ∷ [] in
    bind-ne-ok (peek c) _ out λ first _.
      bind-ne-ok (check_format (first == b'[')) _ out
        λ _ _. sized_items-fail n (drop 1 c) out (Ended-drop 1 c (Ended-append text))
