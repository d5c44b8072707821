-- ===== src/Process/Sites/Keys.antt =====
-- BreakpointSite::Enable and Disable, on the ids and the addresses of the sites.
use building_a_debugger.Common.{
  ℕ, zero, suc, ◌≡◌, refl, sym, ap, ◌∙◌, true, false, List, [], ◌∷◌, get_elem?, set, Option, none,
  some, Option-cases, inl, inr, if◌then◌else◌,
}
use building_a_debugger.Common.Int.{ℤ}
use building_a_debugger.Process.State.{
  BreakpointSite, execute, Process, Env, unspecified, ◌>>=◌, pure,
}
use building_a_debugger.Process.Always.{Always, if-Always_at, >>=-Always_into}
use building_a_debugger.Process.Hardware.{set_hardware_stoppoint, clear_hardware_stoppoint}
use building_a_debugger.Process.Hardware.Sites.{
  SameSites, set_hardware_stoppoint-Always, clear_hardware_stoppoint-Always,
}
use building_a_debugger.Process.Sites.{
  replace_low_byte, int3, site_at, put_site, enable_hardware, enable_software, enable_site,
  disable_hardware, disarm_site, disable_software, disable_site,
}
use building_a_debugger.Process.Sites.Enable.{set-set}
use building_a_debugger.Process.Sites.Software.{
  site_saved, enable_unread, enable_unwritten, enable_written, disable_unread, disable_unwritten,
  disable_written,
}

-- What tells a site from the others.
abbrev pub key : BreakpointSite → ℤ × ℕ
key b = (b.id, b.address)

abbrev pub keys : List BreakpointSite → List (ℤ × ℕ)
keys [] = []
keys (b ∷ sites) = key b ∷ keys sites

abbrev pub SameKeys : {K : Type 0} → Process K → Process K → Type 0
SameKeys start q =
    (keys q.breakpoint_sites ≡ keys start.breakpoint_sites) × (q.last_site_id ≡ start.last_site_id)

keys-set :
    (sites : List BreakpointSite) (i : ℕ) (b c : BreakpointSite)
    → get_elem? sites i ≡ some b
    → key c ≡ key b
    → keys (set sites i c) ≡ keys sites
keys-set [] i b c e h = refl
keys-set (s ∷ sites) zero b c e h =
    ap (λ k. k ∷ keys sites) (h ∙ ap key (some_injective b s (sym e)))
  where
    some_injective : (x y : BreakpointSite) → some x ≡ some y → x ≡ y
    some_injective x y e = cc
keys-set (s ∷ sites) (suc i) b c e h = ap (λ ks. key s ∷ ks) (keys-set sites i b c e h)

module _ {K : Type 0} (env : Env K) (i : ℕ) (b : BreakpointSite) (start : Process K)
    (there : get_elem? start.breakpoint_sites i ≡ some b) where
  put_site-SameKeys :
      (c : BreakpointSite) (q : Process K)
      → key c ≡ key b
      → SameSites start q
      → SameKeys start (put_site i c q)
  put_site-SameKeys c q h (sites, count, w, n) =
      (ap (λ s. keys (set s i c)) sites ∙ keys-set start.breakpoint_sites i b c there h, count)

  forget : (q : Process K) → SameSites start q → SameKeys start q
  forget q (sites, count, w, n) = (ap keys sites, count)

  same : SameSites start start
  same = (refl, refl, refl, refl)

  enable_hardware-Always : Always (SameKeys start) (enable_hardware env i b start)
  unfolding enable_hardware
  enable_hardware-Always =
      >>=-Always_into (SameSites start) (SameKeys start)
        (set_hardware_stoppoint env b.address execute 1) _ start
        (set_hardware_stoppoint-Always env start b.address execute 1 start same) forget
        λ index q h.
          put_site-SameKeys (record b { hardware_register_index = some index; is_enabled = true }) q
            refl h

  enable_software-Always : Always (SameKeys start) (enable_software env i b start)
  enable_software-Always = elim (Option-cases (env.kernel.peek_data b.address start.kernel_state)) [
    | inl e ↦ rw (enable_unread env i b start e) (refl, refl)
    | inr (word, e) ↦
        elim (Option-cases
          (env.kernel.poke_data b.address (replace_low_byte word int3) start.kernel_state)) [
            | inl f ↦
                rw (enable_unwritten env i word b start e f)
                  (put_site-SameKeys (site_saved env b word) start refl same)
            | inr (t, f) ↦
                let on : BreakpointSite = record (site_saved env b word) { is_enabled = true } in
                rw (enable_written env i word t b start e f) (
                  ap keys (set-set start.breakpoint_sites i (site_saved env b word) on)
                      ∙ keys-set start.breakpoint_sites i b on there refl,
                  refl,
                )
          ]
  ]

  disable_software-Always : Always (SameKeys start) (disable_software env i b start)
  disable_software-Always =
      elim (Option-cases (env.kernel.peek_data b.address start.kernel_state)) [
        | inl e ↦ rw (disable_unread env i b start e) (refl, refl)
        | inr (word, e) ↦
            elim (Option-cases (
              env.kernel.poke_data b.address (replace_low_byte word b.saved_data)
                start.kernel_state)) [
                  | inl f ↦ rw (disable_unwritten env i word b start e f) (refl, refl)
                  | inr (t, f) ↦ rw (disable_written env i word t b start e f) (
                    keys-set start.breakpoint_sites i b (record b { is_enabled = false }) there
                        refl,
                    refl,
                  )
                ]
      ]

  disarm_site-Always : (r : Option ℕ) → Always (SameKeys start) (disarm_site env i b r start)
  unfolding disarm_site
  disarm_site-Always none = tt
  disarm_site-Always (some index) =
      >>=-Always_into (SameSites start) (SameKeys start) (clear_hardware_stoppoint env index) _
        start (clear_hardware_stoppoint-Always env start index start same) forget
        λ u q h.
          put_site-SameKeys (record b { hardware_register_index = none; is_enabled = false }) q refl
            h

  -- The branches of Enable and of Disable of the site.
  enable_there :
      enable_site env i start
      ≡ (if b.is_enabled
            then pure tt
            else if b.is_hardware
            then enable_hardware env i b
            else enable_software env i b)
          start
  unfolding enable_site site_at
  enable_there = rw (◌>>=◌, there) refl

  disable_there :
      disable_site env i start
      ≡ (if b.is_enabled
            then (if b.is_hardware then disable_hardware env i b else disable_software env i b)
            else pure tt)
          start
  unfolding disable_site site_at
  disable_there = rw (◌>>=◌, there) refl

  pub enable_there-Always : Always (SameKeys start) (enable_site env i start)
  enable_there-Always = rw enable_there (
      if-Always_at (SameKeys start) b.is_enabled (pure tt)
        (if b.is_hardware then enable_hardware env i b else enable_software env i b) start
        (refl, refl)
        (if-Always_at (SameKeys start) b.is_hardware (enable_hardware env i b)
          (enable_software env i b) start enable_hardware-Always enable_software-Always))

  pub disable_there-Always : Always (SameKeys start) (disable_site env i start)
  unfolding disable_hardware
  disable_there-Always = rw disable_there (
      if-Always_at (SameKeys start) b.is_enabled
        (if b.is_hardware then disable_hardware env i b else disable_software env i b) (pure tt)
        start
        (if-Always_at (SameKeys start) b.is_hardware (disable_hardware env i b)
          (disable_software env i b) start (disarm_site-Always b.hardware_register_index)
          disable_software-Always)
        (refl, refl))

module _ {K : Type 0} (env : Env K) where
  enable_nowhere :
      (i : ℕ) (p : Process K)
      → get_elem? p.breakpoint_sites i ≡ none
      → enable_site env i p ≡ unspecified
  unfolding enable_site site_at
  enable_nowhere i p e = rw (◌>>=◌, e) refl

  disable_nowhere :
      (i : ℕ) (p : Process K)
      → get_elem? p.breakpoint_sites i ≡ none
      → disable_site env i p ≡ unspecified
  unfolding disable_site site_at
  disable_nowhere i p e = rw (◌>>=◌, e) refl

  -- Enable of a site leaves the ids and addresses of all sites, and the counter of ids, as they
  -- are, whether it returns or throws, and for software and hardware sites.
  pub enable_site-SameKeys : (i : ℕ) (p : Process K) → Always (SameKeys p) (enable_site env i p)
  enable_site-SameKeys i p = elim (Option-cases (get_elem? p.breakpoint_sites i)) [
    | inl e ↦ rw (enable_nowhere i p e) tt
    | inr (b, e) ↦ enable_there-Always env i b p e
  ]

  -- So does Disable.
  pub disable_site-SameKeys : (i : ℕ) (p : Process K) → Always (SameKeys p) (disable_site env i p)
  disable_site-SameKeys i p = elim (Option-cases (get_elem? p.breakpoint_sites i)) [
    | inl e ↦ rw (disable_nowhere i p e) tt
    | inr (b, e) ↦ disable_there-Always env i b p e
  ]
