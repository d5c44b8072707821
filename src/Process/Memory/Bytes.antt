-- ===== src/Process/Memory/Bytes.antt =====
-- Memory as a function from addresses to bytes, and writes into it.
use building_a_debugger.Common.{
  ℕ, zero, suc, ◌+◌, ◌-◌, zeros, ◌≤◌, ◌<◌, ◌≡◌, refl, sym, ap, ◌∙◌, List, [], ◌∷◌, ◌++◌, arith, leb,
  length, take, drop, All, Bool-cases, inl, inr, leb→le, leb_false→lt, length-take,
}
use building_a_debugger.Common.Bytes.{IsByte}
use building_a_debugger.Kernel.{bytes_at, write_bytes}
use building_a_debugger.Registers.{pad}

pub pad_exact : (n : ℕ) (bs : List ℕ) → length bs ≡ n → pad n bs ≡ bs
pad_exact zero [] h = refl
pad_exact zero (b ∷ bs) h = refl
pad_exact (suc n) [] h = absurd (omega arith)
pad_exact (suc n) (b ∷ bs) h = ap (λ r. b ∷ r) (pad_exact n bs (omega arith))

pub pad-zeros : (n : ℕ) (bs : List ℕ) → length bs ≤ n → pad n bs ≡ bs ++ zeros (n - length bs)
pad-zeros zero [] h = refl
pad-zeros zero (b ∷ bs) h = absurd (omega arith)
pad-zeros (suc n) [] h =
    let less : n - 0 ≡ n = omega arith in
    let whole : suc n ≡ suc n - 0 = omega arith in
    ap (λ r. 0 ∷ r) (pad-zeros n [] (omega arith) ∙ ap zeros less) ∙ ap zeros whole
pad-zeros (suc n) (b ∷ bs) h =
    let less : n - length bs ≡ suc n - length (b ∷ bs) = omega arith in
    ap (λ r. b ∷ r) (pad-zeros n bs (omega arith) ∙ ap (λ k. bs ++ zeros k) less)

pub take_exact : (n : ℕ) (bs : List ℕ) → length bs ≡ n → take n bs ≡ bs
take_exact zero [] h = refl
take_exact zero (b ∷ bs) h = absurd (omega arith)
take_exact (suc n) [] h = refl
take_exact (suc n) (b ∷ bs) h = ap (λ r. b ∷ r) (take_exact n bs (omega arith))

pub bytes_at-IsByte :
    (memory : ℕ → ℕ) → ((a : ℕ) → memory a < 256) → (a n : ℕ) → All IsByte (bytes_at memory a n)
bytes_at-IsByte memory h a zero = tt
bytes_at-IsByte memory h a (suc n) = (h a, bytes_at-IsByte memory h (a + 1) n)

pub take-IsByte : (n : ℕ) (bs : List ℕ) → All IsByte bs → All IsByte (take n bs)
take-IsByte zero bs h = tt
take-IsByte (suc n) [] h = tt
take-IsByte (suc n) (b ∷ bs) h = (h.0, take-IsByte n bs h.1)

pub drop-IsByte : (n : ℕ) (bs : List ℕ) → All IsByte bs → All IsByte (drop n bs)
drop-IsByte zero bs h = h
drop-IsByte (suc n) [] h = tt
drop-IsByte (suc n) (b ∷ bs) h = drop-IsByte n bs h.1

pub append-IsByte : (bs cs : List ℕ) → All IsByte bs → All IsByte cs → All IsByte (bs ++ cs)
append-IsByte [] cs h k = k
append-IsByte (b ∷ bs) cs h k = (h.0, append-IsByte bs cs h.1 k)

pub write_bytes-below :
    (m : ℕ → ℕ) (a : ℕ) (bs : List ℕ) (b : ℕ) → b < a → write_bytes m a bs b ≡ m b
write_bytes-below m a [] b h = refl
write_bytes-below m a (v ∷ vs) b h = ground (arith, write_bytes-below m (a + 1) vs b (omega arith))

pub write_bytes-above :
    (m : ℕ → ℕ) (a : ℕ) (bs : List ℕ) (b : ℕ) → a + length bs ≤ b → write_bytes m a bs b ≡ m b
write_bytes-above m a [] b h = refl
write_bytes-above m a (v ∷ vs) b h = ground (arith, write_bytes-above m (a + 1) vs b (omega arith))

-- A write at an address looks at the old memory there only.
pub write_bytes_congr :
    (m n : ℕ → ℕ) (a : ℕ) (bs : List ℕ) (b : ℕ)
    → m b ≡ n b
    → write_bytes m a bs b ≡ write_bytes n a bs b
write_bytes_congr m n a [] b h = h
write_bytes_congr m n a (v ∷ vs) b h = ground (arith, write_bytes_congr m n (a + 1) vs b h)

-- Two writes, one behind the other, are one.
pub write_bytes-append :
    (m : ℕ → ℕ) (a : ℕ) (bs cs : List ℕ) (b : ℕ)
    → write_bytes (write_bytes m a bs) (a + length bs) cs b ≡ write_bytes m a (bs ++ cs) b
write_bytes-append m a [] cs b = ap (λ t. write_bytes m t cs b) start
  where
    start : a + 0 ≡ a
    start = omega arith
write_bytes-append m a (v ∷ vs) cs b = ground (
  arith,
  write_bytes-below (write_bytes m a (v ∷ vs)) (a + length (v ∷ vs)) cs b,
  write_bytes_congr (write_bytes m a (v ∷ vs)) (write_bytes m (a + 1) vs) (a + length (v ∷ vs)) cs
      b,
  ap (λ t. write_bytes (write_bytes m (a + 1) vs) t cs b) later,
  write_bytes-append m (a + 1) vs cs b,
)
  where
    later : a + length (v ∷ vs) ≡ a + 1 + length vs
    later = omega arith

-- Writing back what stands there changes nothing.
pub write_bytes_back : (m : ℕ → ℕ) (a n b : ℕ) → write_bytes m a (bytes_at m a n) b ≡ m b
write_bytes_back m a zero b = refl
write_bytes_back m a (suc n) b = ground (arith, write_bytes_back m (a + 1) n b)

-- Nor does writing back the bytes behind some that are written.
pub write_bytes_tail :
    (m : ℕ → ℕ) (a : ℕ) (bs : List ℕ) (n b : ℕ)
    → length bs ≤ n
    → write_bytes m a (bs ++ drop (length bs) (bytes_at m a n)) b ≡ write_bytes m a bs b
write_bytes_tail m a [] n b h = write_bytes_back m a n b
write_bytes_tail m a (v ∷ vs) zero b h = absurd (omega arith)
write_bytes_tail m a (v ∷ vs) (suc n) b h =
    ground (arith, write_bytes_tail m (a + 1) vs n b (omega arith))

pub take_all : (n : ℕ) (bs : List ℕ) → length bs ≤ n → take n bs ≡ bs
take_all zero [] h = refl
take_all zero (b ∷ bs) h = absurd (omega arith)
take_all (suc n) [] h = refl
take_all (suc n) (b ∷ bs) h = ap (λ r. b ∷ r) (take_all n bs (omega arith))

pub take-drop : (n : ℕ) (bs : List ℕ) → take n bs ++ drop n bs ≡ bs
take-drop zero bs = refl
take-drop (suc n) [] = refl
take-drop (suc n) (b ∷ bs) = ap (λ r. b ∷ r) (take-drop n bs)

take-nil : (n : ℕ) → take {A = ℕ} n [] ≡ []
take-nil zero = refl
take-nil (suc n) = refl

take_add : (k n : ℕ) (bs : List ℕ) → take k bs ++ take n (drop k bs) ≡ take (k + n) bs
take_add zero n bs = ap (λ t. take t bs) (omega arith)
take_add (suc k) n [] = take-nil n ∙ sym (take-nil (suc k + n))
take_add (suc k) n (b ∷ bs) =
    let e : suc (k + n) ≡ suc k + n = omega arith in
    ap (λ r. b ∷ r) (take_add k n bs) ∙ ap (λ t. take t (b ∷ bs)) e

drop_all : (n : ℕ) (bs : List ℕ) → length bs ≤ n → drop n bs ≡ []
drop_all zero [] h = refl
drop_all zero (b ∷ bs) h = absurd (omega arith)
drop_all (suc n) [] h = refl
drop_all (suc n) (b ∷ bs) h = drop_all n bs (omega arith)

-- A write of the first k bytes, and one of n more behind them, write the first k + n.
pub write_bytes-take :
    (m : ℕ → ℕ) (a k n : ℕ) (bs : List ℕ) (b : ℕ)
    → write_bytes (write_bytes m a (take k bs)) (a + k) (take n (drop k bs)) b
      ≡ write_bytes m a (take (k + n) bs) b
write_bytes-take m a k n bs b = elim (Bool-cases (leb k (length bs))) [
  | inl e ↦
      let full : k ≡ length (take k bs) = omega (arith, length-take k bs, leb→le k (length bs) e) in
      let start : a + k ≡ a + length (take k bs) = omega arith in
      ap (λ t. write_bytes (write_bytes m a (take k bs)) t (take n (drop k bs)) b) start
      ∙ write_bytes-append m a (take k bs) (take n (drop k bs)) b
      ∙ ap (λ t. write_bytes m a t b) (take_add k n bs)
  | inr e ↦
      let short : length bs ≤ k = omega (arith, leb_false→lt k (length bs) e) in
      ap (λ t. write_bytes (write_bytes m a (take k bs)) (a + k) (take n t) b) (drop_all k bs short)
      ∙ ap (λ t. write_bytes (write_bytes m a (take k bs)) (a + k) t b) (take-nil n)
      ∙ ap (λ t. write_bytes m a t b) (take_all k bs short)
      ∙ ap (λ t. write_bytes m a t b) (sym (take_all (k + n) bs (omega arith)))
]
