-- ===== src/Process/Sites/Create.antt =====
-- Process::CreateBreakpointSite, the removals, Enable and Disable, on the invariant of the sites.
use building_a_debugger.Common.{
  ℕ, ◌+◌, ◌≤◌, ◌≡◌, ◌≢◌, refl, sym, ◌∙◌, subst, ◌⊎◌, inl, inr, Bool, true, false, List, [], ◌∷◌,
  arith, length, All, Option, none, some, Bool-cases, ◌==◌, ==_refl, if◌then◌else◌, already_created,
}
use building_a_debugger.Common.Int.{ℤ, pos, negsuc}
use building_a_debugger.Stoppoints.Laws.{or_false, is_found-find_if, find_if-append}
use building_a_debugger.Stoppoints.{
  find_if, is_found, push, find_by_address, find_by_id, contains_address, remove_at,
}
use building_a_debugger.Process.State.{BreakpointSite, site_point, Process, Env, done, raised}
use building_a_debugger.Process.Always.{Always, Always-weaken, >>=-Always_into}
use building_a_debugger.Process.Sites.{
  create_breakpoint_site, remove_site, remove_site_by_id, remove_site_by_address, enable_site,
  disable_site,
}
use building_a_debugger.Process.Sites.Keys.{
  key, keys, SameKeys, enable_site-SameKeys, disable_site-SameKeys,
}
use building_a_debugger.Process.Sites.Invariant.{
  SitesValid, Key, Differs, Numbered, Apart, SameKeys→SitesValid, All-append, All-weaken,
  Apart-append, All-erase, Apart-erase, keys-push, keys-erase,
}

-- An address that is not contained is that of no site.
absent-lem :
    (address : ℕ) (sites : List BreakpointSite)
    → contains_address address sites ≡ false
    → All (λ k. address ≢ k.1) (keys sites)
unfolding contains_address find_by_address find_if
absent-lem address [] h = tt
absent-lem address (s ∷ sites) h =
    let at = λ (b : BreakpointSite). address == b.address in
    let (f, g) =
      or_false (at s) (is_found (find_if at sites)) (sym (is_found-find_if at s sites) ∙ h) in
    ((λ e. different address s.address f e), absent-lem address sites g)
  where
    different : (a b : ℕ) → a == b ≡ false → a ≡ b → ⊥
    different a b h e = ground arith

pos_injective : (m n : ℕ) → pos m ≡ pos n → m ≡ n
pos_injective m n h = cc

pos_negsuc : (m n : ℕ) → pos m ≡ negsuc n → ⊥
pos_negsuc m n h = cc

module _ {K : Type 0} (env : Env K) where
  abbrev new_site : ℕ → Bool → Bool → Process K → BreakpointSite
  new_site address hardware internal p = record {
    id = if internal then negsuc 0 else pos (p.last_site_id + 1);
    address = address;
    is_enabled = false;
    saved_data = 0;
    is_hardware = hardware;
    is_internal = internal;
    hardware_register_index = none;
  }

  abbrev with_new : ℕ → Bool → Bool → Process K → Process K
  with_new address hardware internal p = record p {
    breakpoint_sites = push (new_site address hardware internal p) p.breakpoint_sites;
    last_site_id = if internal then p.last_site_id else p.last_site_id + 1;
  }

  create_present :
      (address : ℕ) (hardware internal : Bool) (p : Process K)
      → contains_address address p.breakpoint_sites ≡ true
      → create_breakpoint_site env address hardware internal p ≡ raised already_created p
  unfolding create_breakpoint_site
  create_present address hardware internal p e = rw e refl

  create_absent :
      (address : ℕ) (hardware internal : Bool) (p : Process K)
      → contains_address address p.breakpoint_sites ≡ false
      → create_breakpoint_site env address hardware internal p
        ≡ done (length p.breakpoint_sites) (with_new address hardware internal p)
  unfolding create_breakpoint_site
  create_absent address hardware internal p e = rw e refl

  new-Differs :
      (address : ℕ) (hardware internal : Bool) (p : Process K) (ks : List Key)
      → All (λ k. address ≢ k.1) ks
      → All (Numbered p.last_site_id) ks
      → All (λ j. Differs (key (new_site address hardware internal p)) j) ks
  new-Differs address hardware internal p [] h n = tt
  new-Differs address hardware internal p ((i, a) ∷ ks) h n =
      ((h.0, fresh internal n.0), new-Differs address hardware internal p ks h.1 n.1)
    where
      beyond : (m : ℕ) → m ≤ p.last_site_id → p.last_site_id + 1 ≡ m → ⊥
      beyond m l e = omega arith

      fresh :
          (b : Bool)
          → Numbered p.last_site_id (i, a)
          → ((if b then negsuc 0 else pos (p.last_site_id + 1)) ≡ negsuc 0)
            ⊎ ((if b then negsuc 0 else pos (p.last_site_id + 1)) ≢ i)
      fresh true m = inl refl
      fresh false (inl e) = inr (λ f. pos_negsuc (p.last_site_id + 1) 0 (f ∙ e))
      fresh false (inr (m, e, l)) =
          inr (λ f. beyond m l (pos_injective (p.last_site_id + 1) m (f ∙ e)))

  weaken-Numbered :
      (internal : Bool) (c : ℕ) (k : Key)
      → Numbered c k
      → Numbered (if internal then c else c + 1) k
  weaken-Numbered true c k h = h
  weaken-Numbered false c k (inl e) = inl e
  weaken-Numbered false c k (inr (n, e, l)) = inr (n, e, omega arith)

  new-Numbered :
      (address : ℕ) (hardware internal : Bool) (p : Process K)
      → Numbered
          (if internal then p.last_site_id else p.last_site_id + 1)
          (key (new_site address hardware internal p))
  new-Numbered address hardware true p = inl refl
  new-Numbered address hardware false p = inr (p.last_site_id + 1, refl, omega arith)

  with_new-SitesValid :
      (address : ℕ) (hardware internal : Bool) (p : Process K)
      → SitesValid p
      → All (λ k. address ≢ k.1) (keys p.breakpoint_sites)
      → SitesValid (with_new address hardware internal p)
  with_new-SitesValid address hardware internal p (apart, numbered) absent =
      let new = new_site address hardware internal p in
      let count = if internal then p.last_site_id else p.last_site_id + 1 in
      (
        subst Apart (sym (keys-push new p.breakpoint_sites)) (
            Apart-append (keys p.breakpoint_sites) (key new) apart
              (new-Differs address hardware internal p (keys p.breakpoint_sites) absent numbered)),
        subst (All (Numbered count)) (sym (keys-push new p.breakpoint_sites)) (
            All-append (Numbered count) (keys p.breakpoint_sites) (key new)
              (All-weaken (Numbered p.last_site_id) (Numbered count) (keys p.breakpoint_sites)
                (weaken-Numbered internal p.last_site_id) numbered)
              (new-Numbered address hardware internal p)),
      )

  -- CreateBreakpointSite throws and changes nothing where a site has the address. Otherwise it
  -- returns the new site, which is disabled and which a search for the address finds, and the
  -- sites stay apart: no two share an address, nor an id other than the -1 of internal sites.
  pub create_breakpoint_site-SitesValid :
      (address : ℕ) (hardware internal : Bool) (p : Process K)
      → SitesValid p
      → (create_breakpoint_site env address hardware internal p ≡ raised already_created p)
        ⊎ ((q : Process K) × (create_breakpoint_site env address hardware internal p
              ≡ done (length p.breakpoint_sites) q)
            × SitesValid q
            × (find_by_address address q.breakpoint_sites ≡ some (length p.breakpoint_sites)))
  unfolding find_by_address contains_address
  create_breakpoint_site-SitesValid address hardware internal p valid =
      elim (Bool-cases (contains_address address p.breakpoint_sites)) [
        | inl e ↦ inl (create_present address hardware internal p e)
        | inr e ↦ inr (
          with_new address hardware internal p,
          create_absent address hardware internal p e,
          with_new-SitesValid address hardware internal p valid
              (absent-lem address p.breakpoint_sites e),
          find_if-append (λ b. address == b.address) p.breakpoint_sites
              (new_site address hardware internal p) e (==_refl address),
        )
      ]

  removed-SitesValid :
      (i : ℕ) (q : Process K)
      → SitesValid q
      → SitesValid (record q { breakpoint_sites = remove_at i q.breakpoint_sites })
  removed-SitesValid i q (apart, numbered) = (
    subst Apart (sym (keys-erase i q.breakpoint_sites))
        (Apart-erase i (keys q.breakpoint_sites) apart),
    subst (All (Numbered q.last_site_id)) (sym (keys-erase i q.breakpoint_sites))
        (All-erase (Numbered q.last_site_id) i (keys q.breakpoint_sites) numbered),
  )

  -- Enable, Disable and the two removals keep the sites apart, whether they return or throw.
  pub sites-SitesValid :
      (i : ℕ) (id : ℤ) (address : ℕ) (p : Process K)
      → SitesValid p
      → Always SitesValid (enable_site env i p)
        × Always SitesValid (disable_site env i p)
        × Always SitesValid (remove_site_by_id env id p)
        × Always SitesValid (remove_site_by_address env address p)
  unfolding remove_site_by_id remove_site_by_address
  sites-SitesValid i id address p valid = (
    Always-weaken (SameKeys p) SitesValid (enable_site env i p) (SameKeys→SitesValid p valid)
        (enable_site-SameKeys env i p),
    Always-weaken (SameKeys p) SitesValid (disable_site env i p) (SameKeys→SitesValid p valid)
        (disable_site-SameKeys env i p),
    remove_site-SitesValid (find_by_id id p.breakpoint_sites),
    remove_site-SitesValid (find_by_address address p.breakpoint_sites),
  )
    where
      remove_site-SitesValid : (found : Option ℕ) → Always SitesValid (remove_site env found p)
      remove_site-SitesValid none = tt
      remove_site-SitesValid (some j) =
          >>=-Always_into (SameKeys p) SitesValid (disable_site env j) _ p
            (disable_site-SameKeys env j p) (SameKeys→SitesValid p valid)
            λ u q h. removed-SitesValid j q (SameKeys→SitesValid p valid q h)
