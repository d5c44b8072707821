-- ===== src/Registers/RoundTrip.antt =====
-- Registers::Write and Registers::Read on the copy of the user area.
use building_a_debugger.Common.{
  ℕ, zero, suc, ◌+◌, ◌≤◌, ◌<◌, ◌≡◌, refl, sym, ap, ap₂, ◌∙◌, ◌⊎◌, inl, inr, true, ◌||◌, List, [],
  ◌∷◌, arith, ◌==◌, if◌then◌else◌, length, take, ok, ◌>>=◌,
}
use building_a_debugger.Kernel.{bytes_at, write_bytes}
use building_a_debugger.Process.Memory.Bytes.{write_bytes-below, write_bytes-above}
use building_a_debugger.Registers.{
  Kind, unsigned, array, Value, FloatCasts, pad, to_byte128, widen, read_register, store_register,
  read_uint, read_by_id_as_u64, get_u64,
}
use building_a_debugger.Registers.Table.{RegisterInfo, uint, vector, Layout, register_info_by_id}

take-pad : (n k : ℕ) (bs : List ℕ) → length bs ≡ n → n ≤ k → take n (pad k bs) ≡ bs
take-pad zero k [] h l = refl
take-pad zero k (b ∷ bs) h l = absurd (omega arith)
take-pad (suc n) zero bs h l = absurd (omega arith)
take-pad (suc n) (suc k) [] h l = absurd (omega arith)
take-pad (suc n) (suc k) (b ∷ bs) h l =
    ap (λ r. b ∷ r) (take-pad n k bs (omega arith) (omega arith))

here : (m : ℕ → ℕ) (a v : ℕ) (vs : List ℕ) → write_bytes m a (v ∷ vs) a ≡ v
here m a v vs = ground arith

bytes_at_skip :
    (m : ℕ → ℕ) (a v c n : ℕ) (vs : List ℕ)
    → a < c
    → bytes_at (write_bytes m a (v ∷ vs)) c n ≡ bytes_at (write_bytes m (a + 1) vs) c n
bytes_at_skip m a v c zero vs h = refl
bytes_at_skip m a v c (suc n) vs h =
    ap₂ (λ x xs. x ∷ xs) (ground arith) (bytes_at_skip m a v (c + 1) n vs (omega arith))

bytes_at-write_bytes :
    (m : ℕ → ℕ) (a n : ℕ) (bs : List ℕ) → length bs ≡ n → bytes_at (write_bytes m a bs) a n ≡ bs
bytes_at-write_bytes m a zero [] h = refl
bytes_at-write_bytes m a zero (b ∷ bs) h = absurd (omega arith)
bytes_at-write_bytes m a (suc n) [] h = absurd (omega arith)
bytes_at-write_bytes m a (suc n) (b ∷ bs) h =
    ap₂ (λ x xs. x ∷ xs) (here m a b bs)
      (bytes_at_skip m a b (a + 1) n bs (omega arith)
        ∙ bytes_at-write_bytes m (a + 1) n bs (omega arith))

-- A value of the size of an integer register, or of a vector register.
abbrev pub Fits : RegisterInfo → Value → Type 0
Fits info v =
    (length v.bytes ≡ info.size)
    × (((info.format ≡ uint)
          × (v.kind ≡ unsigned)
          × ((info.size == 1 || info.size == 2 || info.size == 4 || info.size == 8) ≡ true))
        ⊎ ((info.format ≡ vector)
            × (v.kind ≡ array)
            × ((info.size == 8 || info.size == 16) ≡ true)))

widen_plain :
    (casts : FloatCasts) (info : RegisterInfo) (k : Kind) (bs : List ℕ)
    → (k ≡ unsigned) ⊎ (k ≡ array)
    → widen casts info (record { kind = k; bytes = bs }) ≡ to_byte128 bs
unfolding widen
widen_plain casts info k bs (inl e) = rw e refl
widen_plain casts info k bs (inr e) = rw e refl

read_as_uint :
    (user : ℕ → ℕ) (info : RegisterInfo)
    → info.format ≡ uint
    → (info.size == 1 || info.size == 2 || info.size == 4 || info.size == 8) ≡ true
    → read_register user info
      ≡ ok (record { kind = unsigned; bytes = bytes_at user info.offset info.size })
unfolding read_register read_uint
read_as_uint user info e f = rw (e, f) refl

vector_size : (size : ℕ) → (size == 8 || size == 16) ≡ true → (if size == 8 then 8 else 16) ≡ size
vector_size size h = ground arith

read_as_vector :
    (user : ℕ → ℕ) (info : RegisterInfo)
    → info.format ≡ vector
    → read_register user info
      ≡ ok (record {
        kind = array;
        bytes = bytes_at user info.offset (if info.size == 8 then 8 else 16);
      })
unfolding read_register
read_as_vector user info e = rw e refl

Fits-size : (info : RegisterInfo) (v : Value) → Fits info v → info.size ≤ 16
Fits-size info v (n, inl (f, k, s)) = ground arith
Fits-size info v (n, inr (f, k, s)) = ground arith

Fits-kind : (info : RegisterInfo) (v : Value) → Fits info v → (v.kind ≡ unsigned) ⊎ (v.kind ≡ array)
Fits-kind info v (n, inl (f, k, s)) = inl k
Fits-kind info v (n, inr (f, k, s)) = inr k

stored :
    (casts : FloatCasts) (info : RegisterInfo) (v : Value) (user : ℕ → ℕ)
    → Fits info v
    → store_register casts info v user ≡ write_bytes user info.offset v.bytes
unfolding store_register
stored casts info v user fits =
    ap (λ t. write_bytes user info.offset (take info.size t))
      (widen_plain casts info v.kind v.bytes (Fits-kind info v fits))
    ∙ ap (write_bytes user info.offset)
        (take-pad info.size 16 v.bytes fits.0 (Fits-size info v fits))

read_back :
    (info : RegisterInfo) (v : Value) (user : ℕ → ℕ)
    → Fits info v
    → read_register (write_bytes user info.offset v.bytes) info ≡ ok v
read_back info v user (n, inl (f, k, s)) =
    read_as_uint (write_bytes user info.offset v.bytes) info f s
    ∙ ap₂ (λ x y. ok (record { kind = x; bytes = y })) (sym k)
        (bytes_at-write_bytes user info.offset info.size v.bytes n)
read_back info v user (n, inr (f, k, s)) =
    read_as_vector (write_bytes user info.offset v.bytes) info f
    ∙ ap₂ (λ x y. ok (record { kind = x; bytes = y })) (sym k)
        (ap (bytes_at (write_bytes user info.offset v.bytes) info.offset) (vector_size info.size s)
          ∙ bytes_at-write_bytes user info.offset info.size v.bytes n)

-- A value that has the size of an integer or vector register, and the type that reading it gives,
-- is what is read back after it is stored, and the bytes outside the register are unchanged.
pub read_register-store_register :
    (casts : FloatCasts) (info : RegisterInfo) (v : Value) (user : ℕ → ℕ) (b : ℕ)
    → Fits info v
    → (b < info.offset) ⊎ (info.offset + info.size ≤ b)
    → (read_register (store_register casts info v user) info ≡ ok v)
      × (store_register casts info v user b ≡ user b)
read_register-store_register casts info v user b fits outside = (
  ap (λ u. read_register u info) (stored casts info v user fits) ∙ read_back info v user fits,
  ap (λ u. u b) (stored casts info v user fits) ∙ untouched outside,
)
  where
    untouched :
        (b < info.offset) ⊎ (info.offset + info.size ≤ b)
        → write_bytes user info.offset v.bytes b ≡ user b
    untouched (inl h) = write_bytes-below user info.offset v.bytes b h
    untouched (inr h) = write_bytes-above user info.offset v.bytes b (omega (arith, fits.0))

-- Reading by the id of a register of the table.
pub read_by_id_as_u64_found :
    (l : Layout) (id : ℕ) (info : RegisterInfo) (user : ℕ → ℕ) (v : Value)
    → register_info_by_id l id ≡ ok info
    → read_register user info ≡ ok v
    → read_by_id_as_u64 l id user ≡ get_u64 v
unfolding read_by_id_as_u64
read_by_id_as_u64_found l id info user v e f = rw (e, ◌>>=◌, f) refl
