-- ===== src/Process/Sites/Enable.antt =====
-- BreakpointSite::Enable and Disable on every branch of a software breakpoint, and the two in turn.
use building_a_debugger.Common.{
  ℕ, zero, suc, ◌<◌, ◌≡◌, refl, sym, ap, ◌∙◌, subst, true, false, List, [], ◌∷◌, arith, get_elem?,
  set, get_elem?-set_self, get_elem?-lt, bit_and, some, Option-cases, ◌⊎◌, inl, inr,
}
use building_a_debugger.Kernel.{write_bytes, MemoryLaws}
use building_a_debugger.Process.State.{
  BreakpointSite, Process, Env, Outcome, done, raised, aborted, unspecified, ◌>>=◌,
}
use building_a_debugger.Process.Sites.Software.{
  low_byte_written, saved_byte, site_saved, enable_unread, enable_unwritten, enable_written,
  disable_unread, disable_unwritten, disable_written,
}
use building_a_debugger.Process.Sites.{
  replace_low_byte, int3, site_at, enable_software, enable_site, disable_software, disable_site,
}

pub set-set :
    (sites : List BreakpointSite) (i : ℕ) (b c : BreakpointSite)
    → set (set sites i b) i c ≡ set sites i c
set-set [] i b c = refl
set-set (s ∷ sites) zero b c = refl
set-set (s ∷ sites) (suc i) b c = ap (λ r. s ∷ r) (set-set sites i b c)

-- Writing the old byte back over another undoes the write.
write_bytes_undo :
    (m n : ℕ → ℕ) (a v : ℕ)
    → ((c : ℕ) → n c ≡ write_bytes m a (v ∷ []) c)
    → (c : ℕ) → write_bytes n a (m a ∷ []) c ≡ m c
write_bytes_undo m n a v h c = ground (arith, h c)

module _ {K : Type 0} (env : Env K) where
  pub enable_site_software :
      (i : ℕ) (b : BreakpointSite) (p : Process K)
      → get_elem? p.breakpoint_sites i ≡ some b
      → b.is_enabled ≡ false
      → b.is_hardware ≡ false
      → enable_site env i p ≡ enable_software env i b p
  unfolding enable_site site_at
  enable_site_software i b p e f g = rw (◌>>=◌, e, f, g) refl

  pub disable_site_software :
      (i : ℕ) (b : BreakpointSite) (p : Process K)
      → get_elem? p.breakpoint_sites i ≡ some b
      → b.is_enabled ≡ true
      → b.is_hardware ≡ false
      → disable_site env i p ≡ disable_software env i b p
  unfolding disable_site site_at
  disable_site_software i b p e f g = rw (◌>>=◌, e, f, g) refl

module _ {K : Type 0} (env : Env K) (laws : MemoryLaws env.kernel) where
  abbrev memory_of : Process K → ℕ → ℕ
  memory_of p = laws.memory p.kernel_state

  -- The site with the byte that stands at its address.
  abbrev pub with_byte : BreakpointSite → Process K → BreakpointSite
  with_byte b p = record b { saved_data = memory_of p b.address }

  abbrev pub Planted : ℕ → BreakpointSite → Process K → Outcome (Process K) (Unit {0}) → Type 0
  Planted i b p (done u q) =
      (q.breakpoint_sites ≡ set p.breakpoint_sites i (record (with_byte b p) { is_enabled = true }))
      × ((a : ℕ) → memory_of q a ≡ write_bytes (memory_of p) b.address (int3 ∷ []) a)
  Planted i b p (raised e q) =
      (q.kernel_state ≡ p.kernel_state)
      × ((q.breakpoint_sites ≡ p.breakpoint_sites)
          ⊎ (q.breakpoint_sites ≡ set p.breakpoint_sites i (with_byte b p)))
  Planted i b p aborted = ⊥
  Planted i b p unspecified = ⊥

  abbrev pub Lifted : ℕ → BreakpointSite → Process K → Outcome (Process K) (Unit {0}) → Type 0
  Lifted i b p (done u q) =
      (q.breakpoint_sites ≡ set p.breakpoint_sites i (record b { is_enabled = false }))
      × ((a : ℕ) → memory_of q a ≡ write_bytes (memory_of p) b.address (b.saved_data ∷ []) a)
  Lifted i b p (raised e q) = q ≡ p
  Lifted i b p aborted = ⊥
  Lifted i b p unspecified = ⊥

  -- Enable of a software breakpoint that is off returns or throws. Once it returns, 0xcc stands at
  -- its address, the rest of memory is unchanged, and the site is on and has saved the byte that
  -- stood there. Once it throws, the process is unchanged but for the saved byte.
  pub enable_site-Planted :
      (i : ℕ) (b : BreakpointSite) (p : Process K)
      → get_elem? p.breakpoint_sites i ≡ some b
      → b.is_enabled ≡ false
      → b.is_hardware ≡ false
      → Planted i b p (enable_site env i p)
  enable_site-Planted i b p e f g =
      rw (enable_site_software env i b p e f g)
        (elim (Option-cases (env.kernel.peek_data b.address p.kernel_state)) [
          | inl h ↦ rw (enable_unread env i b p h) (refl, inl refl)
          | inr (word, h) ↦
              let saved : bit_and word 0xff ≡ memory_of p b.address =
                saved_byte env laws b.address word p.kernel_state h in
              elim (Option-cases
                (env.kernel.poke_data b.address (replace_low_byte word int3) p.kernel_state)) [
                  | inl k ↦ rw (enable_unwritten env i word b p h k) (
                    refl,
                    inr (ap (λ s. set p.breakpoint_sites i (record b { saved_data = s })) saved),
                  )
                  | inr (t, k) ↦ rw (enable_written env i word t b p h k) (
                    set-set p.breakpoint_sites i (site_saved env b word) _
                        ∙ ap
                            (λ s.
                              set p.breakpoint_sites i
                                (record b { saved_data = s; is_enabled = true }))
                            saved,
                    low_byte_written env laws b.address int3 word p.kernel_state t h (omega arith)
                        k,
                  )
                ]
        ])

  -- Disable of a software breakpoint that is on, with a byte saved, returns or throws. Once it
  -- returns, the saved byte stands at its address, the rest of memory is unchanged and the site is
  -- off. Once it throws, nothing has changed.
  pub disable_site-Lifted :
      (i : ℕ) (b : BreakpointSite) (p : Process K)
      → get_elem? p.breakpoint_sites i ≡ some b
      → b.is_enabled ≡ true
      → b.is_hardware ≡ false
      → b.saved_data < 256
      → Lifted i b p (disable_site env i p)
  disable_site-Lifted i b p e f g small =
      rw (disable_site_software env i b p e f g)
        (elim (Option-cases (env.kernel.peek_data b.address p.kernel_state)) [
          | inl h ↦ rw (disable_unread env i b p h) refl
          | inr (word, h) ↦
              elim (Option-cases (
                env.kernel.poke_data b.address (replace_low_byte word b.saved_data)
                  p.kernel_state)) [
                    | inl k ↦ rw (disable_unwritten env i word b p h k) refl
                    | inr (t, k) ↦ rw (disable_written env i word t b p h k) (
                      refl,
                      low_byte_written env laws b.address b.saved_data word p.kernel_state t h small
                          k,
                    )
                  ]
        ])

  -- Enable and then Disable of a software breakpoint, where both return, leave every byte of memory
  -- as it was, and the site off.
  pub disable_site-enable_site :
      (i : ℕ) (b : BreakpointSite) (p q r : Process K)
      → get_elem? p.breakpoint_sites i ≡ some b
      → b.is_enabled ≡ false
      → b.is_hardware ≡ false
      → enable_site env i p ≡ done tt q
      → disable_site env i q ≡ done tt r
      → (r.breakpoint_sites ≡ set p.breakpoint_sites i (with_byte b p))
        × ((a : ℕ) → laws.memory r.kernel_state a ≡ laws.memory p.kernel_state a)
  disable_site-enable_site i b p q r e f g on off =
      let (sites, planted) = subst (Planted i b p) on (enable_site-Planted i b p e f g) in
      let c : BreakpointSite = record (with_byte b p) { is_enabled = true } in
      let there : get_elem? q.breakpoint_sites i ≡ some c =
        ap (λ s. get_elem? s i) sites
        ∙ get_elem?-set_self p.breakpoint_sites i c (get_elem?-lt p.breakpoint_sites i b e) in
      let (sites_after, lifted) =
        subst (Lifted i c q) off
          (disable_site-Lifted i c q there refl g (laws.memory-lt p.kernel_state b.address)) in
      (
        sites_after
            ∙ ap (λ s. set s i (record c { is_enabled = false })) sites
            ∙ set-set p.breakpoint_sites i c (record c { is_enabled = false })
            ∙ ap (λ t. set p.breakpoint_sites i (record (with_byte b p) { is_enabled = t }))
                (sym f),
        λ a. lifted a ∙ write_bytes_undo (memory_of p) (memory_of q) b.address int3 planted a,
      )
