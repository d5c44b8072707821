-- ===== src/Stoppoints/Laws.antt =====
-- The searches of StoppointCollection.
use building_a_debugger.Common.{
  ℕ, zero, suc, ◌≡◌, refl, sym, ◌∙◌, Bool, true, false, ◌||◌, List, [], ◌∷◌, ◌++◌, if◌then◌else◌,
  Option, none, some, length, get_elem?,
}
use building_a_debugger.Stoppoints.{find_if, is_found}

found_or :
    (b : Bool) (o : Option ℕ)
    → is_found (if b then some 0 else elim o [ none ↦ none | some i ↦ some (suc i) ])
      ≡ (b || is_found o)
found_or true o = refl
found_or false none = refl
found_or false (some i) = refl

pub or_false : (a b : Bool) → (a || b) ≡ false → (a ≡ false) × (b ≡ false)
or_false true b h = cc
or_false false b h = (refl, h)

module _ {P : Type 0} (test : P → Bool) where
  pub is_found-find_if :
      (p : P) (ps : List P)
      → is_found (find_if test (p ∷ ps)) ≡ (test p || is_found (find_if test ps))
  unfolding find_if
  is_found-find_if p ps = found_or (test p) (find_if test ps)

  -- The index that find_if returns: an element that passes, behind ones that do not.
  abbrev pub First : Option ℕ → List P → Type 0
  First none [] = Unit {0}
  First none (p ∷ ps) = (test p ≡ false) × First none ps
  First (some i) [] = ⊥
  First (some zero) (p ∷ ps) = test p ≡ true
  First (some (suc i)) (p ∷ ps) = (test p ≡ false) × First (some i) ps

  step-First :
      (p : P) (ps : List P) (b : Bool) (o : Option ℕ)
      → test p ≡ b
      → First o ps
      → First (if b then some 0 else elim o [ none ↦ none | some i ↦ some (suc i) ]) (p ∷ ps)
  step-First p ps true o e h = e
  step-First p ps false none e h = (e, h)
  step-First p ps false (some i) e h = (e, h)

  pub find_if-First : (ps : List P) → First (find_if test ps) ps
  unfolding find_if
  find_if-First [] = tt
  find_if-First (p ∷ ps) = step-First p ps (test p) (find_if test ps) refl (find_if-First ps)

  pub First-get_elem? :
      (i : ℕ) (ps : List P)
      → First (some i) ps
      → (p : P) × (get_elem? ps i ≡ some p) × (test p ≡ true)
  First-get_elem? i [] h = absurd h
  First-get_elem? zero (p ∷ ps) h = (p, refl, h)
  First-get_elem? (suc i) (p ∷ ps) h = First-get_elem? i ps h.1

  -- An element behind ones that do not pass.
  pub find_if-append :
      (ps : List P) (p : P)
      → is_found (find_if test ps) ≡ false
      → test p ≡ true
      → find_if test (ps ++ p ∷ []) ≡ some (length ps)
  unfolding find_if
  find_if-append [] p h e = rw e refl
  find_if-append (q ∷ ps) p h e =
      let (f, g) =
        or_false (test q) (is_found (find_if test ps)) (sym (is_found-find_if q ps) ∙ h) in
      rw (f, find_if-append ps p g e) refl
