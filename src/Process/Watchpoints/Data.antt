-- ===== src/Process/Watchpoints/Data.antt =====
-- The alignment of a watchpoint, its creation, and what UpdateData leaves in it.
use building_a_debugger.Common.{
  ℕ, zero, suc, ◌+◌, ◌-◌, ◌%◌, ◌^◌, ◌<◌, ◌≤◌, bit_and, ◌≡◌, refl, ap, ◌∙◌, ◌⊎◌, inl, inr, true,
  false, List, arith, le→leb, ◌==◌, ==→eq, if◌then◌else◌, Bool-cases, length, none, already_created,
  not_aligned, could_not_read_memory,
}
use native.Mathlib.Nat.{one-le-pow, pow-le-pow_right}
use building_a_debugger.Common.Int.{pos}
use building_a_debugger.Common.Masks.{bit_and-ones}
use building_a_debugger.Common.Bytes.{from_bytes}
use building_a_debugger.Address.{sub64}
use building_a_debugger.Kernel.{bytes_at, MemoryLaws}
use building_a_debugger.Stoppoints.{push, contains_address}
use building_a_debugger.Process.State.{
  StoppointMode, Watchpoint, watch_point, Process, Env, done, raised, ◌>>=◌,
}
use building_a_debugger.Process.Memory.{read_memory}
use building_a_debugger.Process.Memory.Reads.{read_memory_in_page}
use building_a_debugger.Process.Watchpoints.{is_aligned, updated, new_watchpoint, create_watchpoint}

-- The guard of the constructor, for a size that is a power of two, tells the multiples of the size.
is_aligned_lem : (address k : ℕ) → k < 64 → is_aligned address (2 ^ k) ≡ (address % 2 ^ k == 0)
unfolding is_aligned
is_aligned_lem address k h =
    ap (λ m. bit_and address m == 0) mask ∙ ap (λ t. t == 0) (bit_and-ones k address)
  where
    below : k ≤ 63
    below = omega arith

    mask : sub64 (2 ^ k) 1 ≡ 2 ^ k - 1
    mask = omega (arith, one-le-pow k 2 (omega arith), pow-le-pow_right {n = 2} (omega arith) below)

module _ {K : Type 0} (env : Env K) where
  updated_raised :
      (w : Watchpoint) (p : Process K)
      → read_memory env w.address w.size p ≡ raised could_not_read_memory p
      → updated env w p ≡ raised could_not_read_memory p
  unfolding updated
  updated_raised w p e = rw (◌>>=◌, e) refl

  updated_done :
      (w : Watchpoint) (bytes : List ℕ) (p : Process K)
      → w.size ≤ 8
      → read_memory env w.address w.size p ≡ done bytes p
      → updated env w p
        ≡ done (record w { current_data = from_bytes bytes; previous_data = w.current_data }) p
  unfolding updated
  updated_done w bytes p h e = rw (◌>>=◌, e, le→leb w.size 8 h) refl

  -- The object that the constructor makes, before it reads the data.
  abbrev pub blank : ℕ → StoppointMode → ℕ → Process K → Watchpoint
  blank address mode size p = record {
    id = pos (p.last_watchpoint_id + 1);
    address = address;
    mode = mode;
    is_enabled = false;
    size = size;
    current_data = 0;
    previous_data = 0;
    hardware_register_index = none;
  }

  abbrev pub counted : Process K → Process K
  counted p = record p { last_watchpoint_id = p.last_watchpoint_id + 1 }

  create_known :
      (address : ℕ) (mode : StoppointMode) (size : ℕ) (p : Process K)
      → contains_address address p.watchpoints ≡ true
      → create_watchpoint env address mode size p ≡ raised already_created p
  unfolding create_watchpoint
  create_known address mode size p e = rw e refl

  create_unaligned :
      (address : ℕ) (mode : StoppointMode) (size : ℕ) (p : Process K)
      → contains_address address p.watchpoints ≡ false
      → is_aligned address size ≡ false
      → create_watchpoint env address mode size p ≡ raised not_aligned p
  unfolding create_watchpoint new_watchpoint
  create_unaligned address mode size p e f = rw (e, ◌>>=◌, f) refl

  create_unread :
      (address : ℕ) (mode : StoppointMode) (size : ℕ) (p : Process K)
      → contains_address address p.watchpoints ≡ false
      → is_aligned address size ≡ true
      → updated env (blank address mode size p) (counted p)
        ≡ raised could_not_read_memory (counted p)
      → create_watchpoint env address mode size p ≡ raised could_not_read_memory (counted p)
  unfolding create_watchpoint new_watchpoint
  create_unread address mode size p e f g = rw (e, ◌>>=◌, f, g) refl

  create_read :
      (address : ℕ) (mode : StoppointMode) (size : ℕ) (w : Watchpoint) (p : Process K)
      → contains_address address p.watchpoints ≡ false
      → is_aligned address size ≡ true
      → updated env (blank address mode size p) (counted p) ≡ done w (counted p)
      → create_watchpoint env address mode size p
        ≡ done (length p.watchpoints) (record (counted p) { watchpoints = push w p.watchpoints })
  unfolding create_watchpoint new_watchpoint
  create_read address mode size w p e f g = rw (e, ◌>>=◌, f, g) refl

module _ {K : Type 0} (env : Env K) (laws : MemoryLaws env.kernel) where
  -- The watchpoint after its data is read from memory.
  abbrev pub refreshed : Watchpoint → Process K → Watchpoint
  refreshed w p = record w {
    current_data = from_bytes (bytes_at (laws.memory p.kernel_state) w.address w.size);
    previous_data = w.current_data;
  }

  updated_lem :
      (w : Watchpoint) (p : Process K)
      → w.size ≤ 8
      → w.address + w.size ≤ 2 ^ 64
      → w.address % 4096 + w.size ≤ 4096
      → (updated env w p ≡ raised could_not_read_memory p)
        ⊎ (updated env w p ≡ done (refreshed w p) p)
  updated_lem w p small inside in_page =
      elim (read_memory_in_page env laws w.address w.size p inside in_page) [
        | inl e ↦ inl (updated_raised env w p e)
        | inr e ↦ inr (updated_done env w _ p small e)
      ]

  -- CreateWatchpoint for a size of 1, 2, 4 or 8, every branch: it refuses an address that has a
  -- watchpoint, and then one that is no multiple of the size; otherwise it throws if memory cannot
  -- be read, or adds a disabled watchpoint, with the next id, that holds the bytes of memory there.
  -- An id is used up only behind the two checks.
  pub create_watchpoint_lem :
      (address k : ℕ) (mode : StoppointMode) (p : Process K)
      → k < 4
      → address + 2 ^ k ≤ 2 ^ 64
      → if contains_address address p.watchpoints
        then create_watchpoint env address mode (2 ^ k) p ≡ raised already_created p
        else if address % 2 ^ k == 0
        then ((create_watchpoint env address mode (2 ^ k) p
              ≡ raised could_not_read_memory (counted env p))
            ⊎ (create_watchpoint env address mode (2 ^ k) p
                ≡ done (length p.watchpoints) (record (counted env p) {
                  watchpoints = push (refreshed (blank env address mode (2 ^ k) p) p) p.watchpoints;
                })))
        else (create_watchpoint env address mode (2 ^ k) p ≡ raised not_aligned p)
  create_watchpoint_lem address k mode p h inside =
      elim (Bool-cases (contains_address address p.watchpoints)) [
        | inl e ↦ rw e (create_known env address mode (2 ^ k) p e)
        | inr e ↦ elim (Bool-cases (address % 2 ^ k == 0)) [
          | inr f ↦
              rw (e, f)
                (create_unaligned env address mode (2 ^ k) p e
                  (is_aligned_lem address k (omega arith) ∙ f))
          | inl f ↦
              rw (e, f)
                (elim (updated_lem (blank env address mode (2 ^ k) p) (counted env p) (small k h)
                  inside (in_page address k h (==→eq (address % 2 ^ k) 0 f))) [
                    | inl g ↦ inl (
                        create_unread env address mode (2 ^ k) p e
                          (is_aligned_lem address k (omega arith) ∙ f) g)
                    | inr g ↦ inr (
                        create_read env address mode (2 ^ k) _ p e
                          (is_aligned_lem address k (omega arith) ∙ f) g)
                  ])
        ]
      ]
    where
      small : (k : ℕ) → k < 4 → 2 ^ k ≤ 8
      small zero h = omega arith
      small (suc zero) h = omega arith
      small (suc (suc zero)) h = omega arith
      small (suc (suc (suc zero))) h = omega arith
      small (suc (suc (suc (suc k)))) h = absurd (omega arith)

      -- A multiple of the size has all of it inside one page.
      in_page : (a k : ℕ) → k < 4 → a % 2 ^ k ≡ 0 → a % 4096 + 2 ^ k ≤ 4096
      in_page a zero h e = omega arith
      in_page a (suc zero) h e = omega arith
      in_page a (suc (suc zero)) h e = omega arith
      in_page a (suc (suc (suc zero))) h e = omega arith
      in_page a (suc (suc (suc (suc k)))) h e = absurd (omega arith)
