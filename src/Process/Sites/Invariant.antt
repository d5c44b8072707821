-- ===== src/Process/Sites/Invariant.antt =====
-- The invariant of the breakpoint sites: different addresses, and different ids but for the -1 of
-- internal sites.
use building_a_debugger.Common.{
  ℕ, zero, suc, ◌≤◌, ◌≡◌, ◌≢◌, refl, sym, ap, subst, ◌⊎◌, List, [], ◌∷◌, ◌++◌, erase_at, All,
}
use building_a_debugger.Common.Int.{ℤ, pos, negsuc}
use building_a_debugger.Stoppoints.{push, remove_at}
use building_a_debugger.Process.State.{BreakpointSite, site_point, Process}
use building_a_debugger.Process.Sites.Keys.{key, keys, SameKeys}

abbrev pub Key : Type 0
Key = ℤ × ℕ

-- Another address, and another id unless the site is internal.
abbrev pub Differs : Key → Key → Type 0
Differs (i, a) (j, b) = (a ≢ b) × ((i ≡ negsuc 0) ⊎ (i ≢ j))

-- The number of a site was given out, or it is internal.
abbrev pub Numbered : ℕ → Key → Type 0
Numbered count (i, a) = (i ≡ negsuc 0) ⊎ ((n : ℕ) × (i ≡ pos n) × (n ≤ count))

abbrev pub Apart : List Key → Type 0
Apart [] = Unit {0}
Apart (k ∷ ks) = All (λ j. Differs j k) ks × Apart ks

abbrev pub SitesValid : {K : Type 0} → Process K → Type 0
SitesValid p =
    Apart (keys p.breakpoint_sites) × All (Numbered p.last_site_id) (keys p.breakpoint_sites)

pub SameKeys→SitesValid :
    {K : Type 0} (p : Process K) → SitesValid p → (q : Process K) → SameKeys p q → SitesValid q
SameKeys→SitesValid p (apart, numbered) q (ks, count) = (
  subst Apart (sym ks) apart,
  subst (λ t. All (Numbered t) (keys q.breakpoint_sites)) (sym count)
      (subst (All (Numbered p.last_site_id)) (sym ks) numbered),
)

pub All-append :
    (P : Key → Type 0) (ks : List Key) (k : Key) → All P ks → P k → All P (ks ++ k ∷ [])
All-append P [] k h p = (p, tt)
All-append P (j ∷ ks) k h p = (h.0, All-append P ks k h.1 p)

pub All-weaken :
    (P Q : Key → Type 0) (ks : List Key) → ((k : Key) → P k → Q k) → All P ks → All Q ks
All-weaken P Q [] f h = tt
All-weaken P Q (k ∷ ks) f h = (f k h.0, All-weaken P Q ks f h.1)

pub Apart-append :
    (ks : List Key) (k : Key) → Apart ks → All (λ j. Differs k j) ks → Apart (ks ++ k ∷ [])
Apart-append [] k h d = (tt, tt)
Apart-append (j ∷ ks) k h d =
    (All-append (λ i. Differs i j) ks k h.0 d.0, Apart-append ks k h.1 d.1)

pub All-erase : (P : Key → Type 0) (i : ℕ) (ks : List Key) → All P ks → All P (erase_at i ks)
All-erase P i [] h = tt
All-erase P zero (k ∷ ks) h = h.1
All-erase P (suc i) (k ∷ ks) h = (h.0, All-erase P i ks h.1)

pub Apart-erase : (i : ℕ) (ks : List Key) → Apart ks → Apart (erase_at i ks)
Apart-erase i [] h = tt
Apart-erase zero (k ∷ ks) h = h.1
Apart-erase (suc i) (k ∷ ks) h = (All-erase (λ j. Differs j k) i ks h.0, Apart-erase i ks h.1)

pub keys-push :
    (b : BreakpointSite) (sites : List BreakpointSite)
    → keys (push b sites) ≡ keys sites ++ key b ∷ []
keys-push b [] = refl
keys-push b (s ∷ sites) = ap (λ ks. key s ∷ ks) (keys-push b sites)

pub keys-erase :
    (i : ℕ) (sites : List BreakpointSite) → keys (remove_at i sites) ≡ erase_at i (keys sites)
keys-erase i [] = refl
keys-erase zero (s ∷ sites) = refl
keys-erase (suc i) (s ∷ sites) = ap (λ ks. key s ∷ ks) (keys-erase i sites)
