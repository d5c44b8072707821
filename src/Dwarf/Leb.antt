-- ===== src/Dwarf/Leb.antt =====
-- LEB128 integers: what the readers of Dwarf/Cursor.antt decode.
use native.Mathlib.Nat.{
  pow-suc, one-le-pow, pow-le-pow_right, mul-add-mod_self_left, mod-eq_of_lt, div-add-mod, mod-lt,
}
use building_a_debugger.Common.{
  ℕ, zero, suc, ◌+◌, ◌-◌, ◌*◌, ◌/◌, ◌%◌, ◌^◌, ◌≤◌, ◌<◌, bit_and, bit_or, ◌≡◌, sym, ap, ◌∙◌, List,
  [], ◌∷◌, ◌++◌, arith, leb_gt, length, drop-append, All, ok,
}
use building_a_debugger.Common.Bits.{bit_or-shl, bit_and-low_seven, bit_and-top_bit}
use building_a_debugger.Dwarf.Cursor.{Groups, leb_loop, uleb128}

-- The number whose groups of seven bits are given, lowest first.
abbrev pub group_value : List ℕ → ℕ
group_value [] = 0
group_value (g ∷ gs) = g + 128 * group_value gs

-- The encoding of groups: every byte but the last has its top bit set.
abbrev pub mark : ℕ → List ℕ → List ℕ
mark g [] = g ∷ []
mark g (h ∷ hs) = (g + 128) ∷ mark h hs

abbrev pub last_group : ℕ → List ℕ → ℕ
last_group g [] = g
last_group g (h ∷ hs) = last_group h hs

abbrev pub IsGroup : ℕ → Type 0
IsGroup g = g < 128

pub pow-split : (m n : ℕ) → 2 ^ (m + n) ≡ 2 ^ m * 2 ^ n
pow-split m zero = omega (arith, ap (λ t. 2 ^ t) drop_zero)
  where
    drop_zero : m + 0 ≡ m
    drop_zero = omega arith
pow-split m (suc n) =
    ap (λ t. 2 ^ t) assoc ∙ omega (arith, pow-suc 2 (m + n), pow-suc 2 n, pow-split m n, scaled)
  where
    assoc : m + suc n ≡ suc (m + n)
    assoc = omega arith

    scaled : 2 ^ m * 2 ^ suc n ≡ 2 ^ m * 2 ^ n * 2
    scaled = omega (arith, ap (λ (t : ℕ). 2 ^ m * t) (pow-suc 2 n))

-- `g << s`, cut at p * r where p is 2^s.
mul-mod-split : (g p r : ℕ) → 0 < p → 0 < r → g * p % (p * r) ≡ g % r * p
mul-mod-split g p r hp hr =
    ap (λ t. t % (p * r)) regroup
    ∙ mul-add-mod_self_left (p * r) (g / r) (g % r * p)
    ∙ mod-eq_of_lt small
  where
    scaled : r * (g / r) * p + g % r * p ≡ g * p
    scaled = omega (arith, ap (λ (t : ℕ). t * p) (div-add-mod g r))

    regroup : g * p ≡ p * r * (g / r) + g % r * p
    regroup = omega (arith, scaled)

    small : g % r * p < p * r
    small = grind (arith, mod-lt g hr)

index-lt : (c w r h : ℕ) → r < h → c < w → c + r * w < w * h
index-lt c w r h hr hc = grind arith

-- A group that is added above bits below p, cut at p * r.
add-mod-split :
    (result g p r : ℕ) → result < p → 0 < r → (result + g * p) % (p * r) ≡ result + g % r * p
add-mod-split result g p r hp hr =
    ap (λ t. t % (p * r)) regroup
    ∙ mul-add-mod_self_left (p * r) (g / r) (result + g % r * p)
    ∙ mod-eq_of_lt (index-lt result p (g % r) r (mod-lt g hr) hp)
  where
    scaled : r * (g / r) * p + g % r * p ≡ g * p
    scaled = omega (arith, ap (λ (t : ℕ). t * p) (div-add-mod g r))

    regroup : result + g * p ≡ p * r * (g / r) + (result + g % r * p)
    regroup = omega (arith, scaled)

-- One round of the loop: the group lands above the bits already there.
or_group :
    (g s result : ℕ)
    → s < 64
    → result < 2 ^ s
    → bit_or result (g * 2 ^ s % 2 ^ 64) ≡ (result + g * 2 ^ s) % 2 ^ 64
or_group g s result hs hr =
    ap (bit_or result) cut ∙ bit_or-shl s result (g % 2 ^ (64 - s)) hr ∙ sym total
  where
    width : 2 ^ 64 ≡ 2 ^ s * 2 ^ (64 - s)
    width = ap (λ t. 2 ^ t) whole ∙ pow-split s (64 - s)
      where
        whole : 64 ≡ s + (64 - s)
        whole = omega arith

    cut : g * 2 ^ s % 2 ^ 64 ≡ g % 2 ^ (64 - s) * 2 ^ s
    cut =
        ap (λ t. g * 2 ^ s % t) width
        ∙ mul-mod-split g (2 ^ s) (2 ^ (64 - s)) (one-le-pow s 2 (omega arith))
            (one-le-pow (64 - s) 2 (omega arith))

    total : (result + g * 2 ^ s) % 2 ^ 64 ≡ result + g % 2 ^ (64 - s) * 2 ^ s
    total =
        ap (λ t. (result + g * 2 ^ s) % t) width
        ∙ add-mod-split result g (2 ^ s) (2 ^ (64 - s)) hr (one-le-pow (64 - s) 2 (omega arith))

-- What the loop leaves after the bytes of some groups, above the bits already read.
abbrev pub decoded : ℕ → List ℕ → ℕ → ℕ → ℕ → Groups
decoded g gs result s count = record {
  result = (result + group_value (g ∷ gs) * 2 ^ s) % 2 ^ 64;
  shift = s + 7 * length (g ∷ gs);
  byte = last_group g gs;
  count = count + length (g ∷ gs);
}

leb_loop-last :
    (g s result count : ℕ) (rest : List ℕ)
    → s < 64
    → result < 2 ^ s
    → IsGroup g
    → leb_loop (g ∷ rest) result s count ≡ ok (decoded g [] result s count)
unfolding leb_loop
leb_loop-last g s result count rest hs hr hg =
    let low : bit_and g 0x7f ≡ g = omega (arith, bit_and-low_seven g) in
    let top : bit_and g 0x80 ≡ 0 = omega (arith, bit_and-top_bit g) in
    rw (low, top, leb_gt 64 s hs, or_group g s result hs hr)
      (ground (arith, ap (λ (t : ℕ). t * 2 ^ s) single))
  where
    single : group_value (g ∷ []) ≡ g
    single = omega arith

leb_loop-more :
    (g s result count : ℕ) (rest : List ℕ)
    → s < 64
    → result < 2 ^ s
    → IsGroup g
    → leb_loop ((g + 128) ∷ rest) result s count
      ≡ leb_loop rest ((result + g * 2 ^ s) % 2 ^ 64) (s + 7) (count + 1)
unfolding leb_loop
leb_loop-more g s result count rest hs hr hg =
    let low : bit_and (g + 128) 0x7f ≡ g = omega (arith, bit_and-low_seven (g + 128)) in
    let top : bit_and (g + 128) 0x80 ≡ 128 = omega (arith, bit_and-top_bit (g + 128)) in
    rw (low, top, leb_gt 64 s hs, or_group g s result hs hr)

group-lt : (g p result : ℕ) → IsGroup g → result < p → result + g * p < p * 128
group-lt g p result hg hr = index-lt result p g 128 hg hr

-- The loop over the bytes of some groups, from any state in which at most 64 bits are asked for.
pub leb_loop-mark :
    (g : ℕ) (gs : List ℕ) (s result count : ℕ) (rest : List ℕ)
    → s + 7 * length gs < 64
    → result < 2 ^ s
    → All IsGroup (g ∷ gs)
    → leb_loop (mark g gs ++ rest) result s count ≡ ok (decoded g gs result s count)
leb_loop-mark g [] s result count rest hs hr hg =
    leb_loop-last g s result count rest (omega arith) hr hg.0
leb_loop-mark g (h ∷ hs) s result count rest bound hr hg =
    leb_loop-more g s result count (mark h hs ++ rest) (omega arith) hr hg.0
    ∙ ap (λ t. leb_loop (mark h hs ++ rest) t (s + 7) (count + 1)) (mod-eq_of_lt whole)
    ∙ leb_loop-mark h hs (s + 7) (result + g * 2 ^ s) (count + 1) rest (omega arith) fits hg.1
    ∙ same
  where
    wider : 2 ^ (s + 7) ≡ 2 ^ s * 128
    wider = pow-split s 7

    fits : result + g * 2 ^ s < 2 ^ (s + 7)
    fits = omega (arith, wider, group-lt g (2 ^ s) result hg.0 hr)

    whole : result + g * 2 ^ s < 2 ^ 64
    whole = omega (arith, fits, pow-le-pow_right {n = 2} (omega arith) narrow)
      where
        narrow : s + 7 ≤ 64
        narrow = omega arith

    same :
        ok (decoded h hs (result + g * 2 ^ s) (s + 7) (count + 1))
        ≡ ok (decoded g (h ∷ hs) result s count)
    same = ground (arith, ap (λ (t : ℕ). group_value (h ∷ hs) * t) wider)

-- A ULEB128 integer of at most ten bytes reads as the number of its groups, cut to 64 bits, and
-- the cursor ends behind its last byte.
pub uleb128-mark :
    (pre : List ℕ) (g : ℕ) (gs rest : List ℕ) (end : ℕ)
    → length gs < 10
    → All IsGroup (g ∷ gs)
    → uleb128 (pre ++ (mark g gs ++ rest)) (record { pos = length pre; end = end })
      ≡ ok (group_value (g ∷ gs) % 2 ^ 64, record { pos = length pre + length (g ∷ gs); end = end })
unfolding uleb128
uleb128-mark pre g gs rest end short groups =
    rw
      (
        drop-append pre (mark g gs ++ rest),
        leb_loop-mark g gs 0 0 0 rest (omega arith) (omega arith) groups,
      )
      (ground arith)
