-- ===== src/Process/Memory/Traps.antt =====
-- The loop over breakpoint sites in Process::ReadMemoryWithoutTraps of src/process.cpp.
use building_a_debugger.Common.{
  ℕ, zero, suc, ◌+◌, ◌^◌, ◌<◌, ◌≤◌, ◌≡◌, refl, sym, ap, ap₂, ◌∙◌, true, false, List, [], ◌∷◌, arith,
  set, length, All, Bool-cases, ltb, ◌==◌, ==→eq, some, ◌⊎◌, inl, inr, if◌then◌else◌,
}
use building_a_debugger.Address.{sub64}
use building_a_debugger.Kernel.{bytes_at}
use building_a_debugger.Process.State.{BreakpointSite, site_point}
use building_a_debugger.Process.Memory.Chunks.{length-bytes_at}
use building_a_debugger.Process.Memory.{keeps_trap, restore_traps}

-- Some enabled software site of the list is at the address.
abbrev pub Trapped : List BreakpointSite → ℕ → Type 0
Trapped [] a = ⊥
Trapped (s ∷ sites) a = ((keeps_trap s ≡ false) × (s.address ≡ a)) ⊎ Trapped sites a

-- Every enabled software site has saved the byte of the program, and lies between the bounds.
abbrev pub Saves : (ℕ → ℕ) → BreakpointSite → Type 0
Saves program s = keeps_trap s ≡ false → s.saved_data ≡ program s.address

abbrev pub Inside : ℕ → ℕ → BreakpointSite → Type 0
Inside low high s = (low ≤ s.address) × (s.address < high)

-- Memory shows the program where no enabled software site stands.
abbrev pub Shows : (ℕ → ℕ) → (ℕ → ℕ) → List BreakpointSite → ℕ → ℕ → Type 0
Shows program memory sites low high =
    (a : ℕ) → low ≤ a → a < high → (memory a ≡ program a) ⊎ Trapped sites a

bytes_at_congr :
    (m n : ℕ → ℕ) (a k : ℕ)
    → ((c : ℕ) → a ≤ c → c < a + k → m c ≡ n c)
    → bytes_at m a k ≡ bytes_at n a k
bytes_at_congr m n a zero h = refl
bytes_at_congr m n a (suc k) h =
    ap₂ (λ x xs. x ∷ xs) (h a (omega arith) (omega arith))
      (bytes_at_congr m n (a + 1) k (λ c l u. h c (omega arith) (omega arith)))

abbrev with_byte : (ℕ → ℕ) → ℕ → ℕ → ℕ → ℕ
with_byte m at v c = if c == at then v else m c

set-bytes_at :
    (m : ℕ → ℕ) (a k i v : ℕ)
    → i < k
    → set (bytes_at m a k) i v ≡ bytes_at (with_byte m (a + i) v) a k
set-bytes_at m a zero i v h = absurd (omega arith)
set-bytes_at m a (suc k) zero v h =
    ap₂ (λ x xs. x ∷ xs) (here a (a + 0) (omega arith))
      (bytes_at_congr m (with_byte m (a + 0) v) (a + 1) k
        (λ c l u. elsewhere c (a + 0) (omega arith)))
  where
    here : (c at : ℕ) → c ≡ at → v ≡ with_byte m at v c
    here c at e = ground arith

    elsewhere : (c at : ℕ) → at < c → m c ≡ with_byte m at v c
    elsewhere c at e = ground arith
set-bytes_at m a (suc k) (suc i) v h =
    ap₂ (λ x xs. x ∷ xs) (before a (a + suc i) (omega arith))
      (set-bytes_at m (a + 1) k i v (omega arith)
        ∙ ap (λ t. bytes_at (with_byte m t v) (a + 1) k) later)
  where
    before : (c at : ℕ) → c < at → m c ≡ with_byte m at v c
    before c at e = ground arith

    later : a + 1 + i ≡ a + suc i
    later = omega arith

Trapped-tail :
    (s : BreakpointSite) (sites : List BreakpointSite) (a : ℕ)
    → keeps_trap s ≡ true
    → Trapped (s ∷ sites) a
    → Trapped sites a
Trapped-tail s sites a e (inl (f, h)) = cc
Trapped-tail s sites a e (inr t) = t

Shows-kept :
    (program memory : ℕ → ℕ) (s : BreakpointSite) (sites : List BreakpointSite) (low high : ℕ)
    → keeps_trap s ≡ true
    → Shows program memory (s ∷ sites) low high
    → Shows program memory sites low high
Shows-kept program memory s sites low high e shows a l u = elim (shows a l u) [
  | inl h ↦ inl h
  | inr t ↦ inr (Trapped-tail s sites a e t)
]

-- A site whose byte is put back is not needed any more.
Shows-restored :
    (program memory : ℕ → ℕ) (s : BreakpointSite) (sites : List BreakpointSite) (low high : ℕ)
    → s.saved_data ≡ program s.address
    → Shows program memory (s ∷ sites) low high
    → Shows program (with_byte memory s.address s.saved_data) sites low high
Shows-restored program memory s sites low high saved shows a l u =
    elim (Bool-cases (a == s.address)) [
      | inl e ↦
          inl (restored a s.address s.saved_data e ∙ saved ∙ ap program (sym (==→eq a s.address e)))
      | inr e ↦ elim (shows a l u) [
        | inl h ↦ inl (other a s.address s.saved_data e ∙ h)
        | inr (inl (k, at)) ↦ absurd (different a s.address e at)
        | inr (inr t) ↦ inr t
      ]
    ]
  where
    restored : (a b v : ℕ) → a == b ≡ true → with_byte memory b v a ≡ v
    restored a b v e = rw e refl

    other : (a b v : ℕ) → a == b ≡ false → with_byte memory b v a ≡ memory a
    other a b v e = rw e refl

    different : (a b : ℕ) → a == b ≡ false → b ≡ a → ⊥
    different a b e h = ground arith

restore_none : (address : ℕ) (bytes : List ℕ) → restore_traps address [] bytes ≡ some bytes
unfolding restore_traps
restore_none address bytes = refl

restore_kept :
    (address : ℕ) (s : BreakpointSite) (sites : List BreakpointSite) (bytes : List ℕ)
    → keeps_trap s ≡ true
    → restore_traps address (s ∷ sites) bytes ≡ restore_traps address sites bytes
unfolding restore_traps
restore_kept address s sites bytes e = rw e refl

restore_written :
    (address : ℕ) (s : BreakpointSite) (sites : List BreakpointSite) (bytes : List ℕ)
    → keeps_trap s ≡ false
    → ltb (sub64 s.address address) (length bytes) ≡ true
    → restore_traps address (s ∷ sites) bytes
      ≡ restore_traps address sites (set bytes (sub64 s.address address) s.saved_data)
unfolding restore_traps
restore_written address s sites bytes e f = rw (e, f) refl

-- The loop over the sites of the region gives the bytes of the program.
pub restore_traps_lem :
    (program memory : ℕ → ℕ) (address amount : ℕ) (sites : List BreakpointSite)
    → address + amount < 2 ^ 64
    → All (Saves program) sites
    → All (Inside address (address + amount)) sites
    → Shows program memory sites address (address + amount)
    → restore_traps address sites (bytes_at memory address amount)
      ≡ some (bytes_at program address amount)
restore_traps_lem program memory address amount [] bound saves inside shows =
    restore_none address (bytes_at memory address amount)
    ∙ ap some (
        bytes_at_congr memory program address amount
          (λ c l u. elim (shows c l u) [ inl h ↦ h | inr t ↦ absurd t ]))
restore_traps_lem program memory address amount (s ∷ sites) bound saves inside shows =
    elim (Bool-cases (keeps_trap s)) [
      | inl e ↦
          restore_kept address s sites (bytes_at memory address amount) e
          ∙ restore_traps_lem program memory address amount sites bound saves.1 inside.1
              (Shows-kept program memory s sites address (address + amount) e shows)
      | inr e ↦
          restore_written address s sites (bytes_at memory address amount) e within
          ∙ ap (restore_traps address sites) (
              set-bytes_at memory address amount offset s.saved_data
                (omega (arith, inside.0.0, inside.0.1)))
          ∙ ap
              (λ t.
                restore_traps address sites
                  (bytes_at (with_byte memory t s.saved_data) address amount))
              place
          ∙ restore_traps_lem program (with_byte memory s.address s.saved_data) address amount sites
              bound saves.1 inside.1
              (Shows-restored program memory s sites address (address + amount) (saves.0 e) shows)
    ]
  where
    offset : ℕ
    offset = sub64 s.address address

    place : address + offset ≡ s.address
    place = omega (arith, inside.0.0, inside.0.1)

    within : ltb offset (length (bytes_at memory address amount)) ≡ true
    within = ground (arith, length-bytes_at memory address amount, inside.0.0, inside.0.1)
