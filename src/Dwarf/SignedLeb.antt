-- ===== src/Dwarf/SignedLeb.antt =====
-- SLEB128 integers: the sign extension at the end of Cursor::sleb128 in src/dwarf.cpp.
use native.Mathlib.Nat.{pow-le-pow_right}
use building_a_debugger.Common.{
  ℕ, zero, suc, ◌+◌, ◌-◌, ◌*◌, ◌%◌, ◌^◌, ◌≤◌, ◌<◌, bit_or, ◌≡◌, ap, ◌∙◌, List, [], ◌∷◌, ◌++◌, arith,
  ltb, lt→ltb, if◌then◌else◌, length, drop-append, All, ok,
}
use building_a_debugger.Common.Bits.{bit_or-shl, bit_and-sign_bit}
use building_a_debugger.Common.Int.{ℤ, pos, sub_ℕ, signed64}
use building_a_debugger.Dwarf.Cursor.{sleb128, extend_sign}
use building_a_debugger.Dwarf.Leb.{
  group_value, mark, last_group, IsGroup, pow-split, decoded, leb_loop-mark,
}

group_value-lt : (gs : List ℕ) → All IsGroup gs → group_value gs < 2 ^ (7 * length gs)
group_value-lt [] h = omega arith
group_value-lt (g ∷ gs) h = omega (arith, group_value-lt gs h.1, pow-split 7 (7 * length gs), same)
  where
    same : 2 ^ (7 * length (g ∷ gs)) ≡ 2 ^ (7 + 7 * length gs)
    same = ap (λ t. 2 ^ t) shifted
      where
        shifted : 7 * length (g ∷ gs) ≡ 7 + 7 * length gs
        shifted = omega arith

last_group-IsGroup : (g : ℕ) (gs : List ℕ) → All IsGroup (g ∷ gs) → last_group g gs < 128
last_group-IsGroup g [] h = h.0
last_group-IsGroup g (k ∷ gs) h = last_group-IsGroup k gs h.1

-- `result |= ~0 << shift` fills the high bits.
fill_high : (v s : ℕ) → s < 64 → v < 2 ^ s → bit_or v (2 ^ 64 - 2 ^ s) ≡ v + (2 ^ 64 - 2 ^ s)
fill_high v s hs hv = rw mask (bit_or-shl s v (2 ^ (64 - s) - 1) hv)
  where
    width : 2 ^ 64 ≡ 2 ^ s * 2 ^ (64 - s)
    width = ap (λ t. 2 ^ t) whole ∙ pow-split s (64 - s)
      where
        whole : 64 ≡ s + (64 - s)
        whole = omega arith

    mask : 2 ^ 64 - 2 ^ s ≡ (2 ^ (64 - s) - 1) * 2 ^ s
    mask = product (2 ^ s) (2 ^ (64 - s)) width
      where
        product : (p r : ℕ) → 2 ^ 64 ≡ p * r → 2 ^ 64 - p ≡ (r - 1) * p
        product p zero e = absurd (omega arith)
        product p (suc r) e =
            let one_less : suc r - 1 ≡ r = omega arith in rw one_less (omega arith)

-- The value that the groups stand for: negative if the sign bit of the last one is set.
abbrev pub signed_value : ℕ → List ℕ → ℤ
signed_value g gs =
    let v = group_value (g ∷ gs) in
    if ltb (last_group g gs) 64 then pos v else sub_ℕ v (2 ^ (7 * length (g ∷ gs)))

extend_sign-lem :
    (v s byte count : ℕ)
    → s < 64
    → v < 2 ^ s
    → byte < 128
    → signed64 (extend_sign (record { result = v; shift = s; byte = byte; count = count }))
      ≡ (if ltb byte 64 then pos v else sub_ℕ v (2 ^ s))
extend_sign-lem v s byte count hs hv hb =
    let low : 2 ^ s ≤ 2 ^ 63 = pow-le-pow_right {n = 2} (omega arith) bound in
    rw (lt→ltb s 64 hs) (ground (arith, bit_and-sign_bit byte, fill_high v s hs hv, low))
  where
    bound : s ≤ 63
    bound = omega arith

extend_sign-decoded :
    (g : ℕ) (gs : List ℕ)
    → length gs < 9
    → All IsGroup (g ∷ gs)
    → signed64 (extend_sign (decoded g gs 0 0 0)) ≡ signed_value g gs
extend_sign-decoded g gs short groups =
    let fits = group_value-lt (g ∷ gs) groups in
    let whole : (0 + group_value (g ∷ gs) * 2 ^ 0) % 2 ^ 64 ≡ group_value (g ∷ gs) =
      omega (arith, fits, pow-le-pow_right {n = 2} (omega arith) narrow) in
    let start : 0 + 7 * length (g ∷ gs) ≡ 7 * length (g ∷ gs) = omega arith in
    rw (whole, start)
      (extend_sign-lem (group_value (g ∷ gs)) (7 * length (g ∷ gs)) (last_group g gs)
        (0 + length (g ∷ gs)) (omega arith) fits (last_group-IsGroup g gs groups))
  where
    narrow : 7 * length (g ∷ gs) ≤ 63
    narrow = omega arith

-- An SLEB128 integer of at most nine bytes reads as the signed value of its groups, and the
-- cursor ends behind its last byte.
pub sleb128-mark :
    (pre : List ℕ) (g : ℕ) (gs rest : List ℕ) (end : ℕ)
    → length gs < 9
    → All IsGroup (g ∷ gs)
    → (w : ℕ) × (sleb128 (pre ++ (mark g gs ++ rest)) (record { pos = length pre; end = end })
        ≡ ok (w, record { pos = length pre + length (g ∷ gs); end = end }))
      × (signed64 w ≡ signed_value g gs)
unfolding sleb128
sleb128-mark pre g gs rest end short groups = (
  extend_sign (decoded g gs 0 0 0),
  rw
      (
        drop-append pre (mark g gs ++ rest),
        leb_loop-mark g gs 0 0 0 rest (omega arith) (omega arith) groups,
      )
      (ground arith),
  extend_sign-decoded g gs short groups,
)
