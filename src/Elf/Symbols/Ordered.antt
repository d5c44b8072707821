-- ===== src/Elf/Symbols/Ordered.antt =====
-- The map of symbol addresses, in the order of its keys: insertion and search by the greatest low end
-- that is not above an address.
use building_a_debugger.Common.{
  ℕ, suc, ◌≤◌, ◌<◌, ◌≡◌, refl, sym, ap, ◌∙◌, ◌⊎◌, inl, inr, Bool, true, false, ◌&&◌, ◌||◌, List, [],
  ◌∷◌, ltb, leb, ◌==◌, lt→ltb, ltb→lt, Bool-cases, if◌then◌else◌, Option, none, some, arith,
}
use building_a_debugger.Elf.{AddressRange, Symbol}
use building_a_debugger.Elf.Symbols.{
  insert_range, lower_bound, symbol_before, search_at, search_ranges,
}

-- The low ends rise strictly, from a bound on.
abbrev pub SortedFrom : ℕ → List AddressRange → Type 0
SortedFrom lo [] = Unit {0}
SortedFrom lo (r ∷ m) = (lo ≤ r.low) × SortedFrom (suc r.low) m

pub insert_range-SortedFrom :
    (lo : ℕ) (r : AddressRange) (m : List AddressRange)
    → lo ≤ r.low
    → SortedFrom lo m
    → SortedFrom lo (insert_range r m)
unfolding insert_range
insert_range-SortedFrom lo r [] h s = (h, tt)
insert_range-SortedFrom lo r (s ∷ m) h k = ground (arith, insert_range-SortedFrom (suc s.low) r m)

abbrev pub or_else : Option AddressRange → AddressRange → Option AddressRange
or_else none r = some r
or_else (some s) r = some s

-- The entry with the greatest low end that is not above an address.
abbrev pub floor : ℕ → List AddressRange → Option AddressRange
floor a [] = none
floor a (r ∷ m) = let later = or_else (floor a m) r in if leb r.low a then later else none

pub floor-above : (a lo : ℕ) (m : List AddressRange) → a < lo → SortedFrom lo m → floor a m ≡ none
floor-above a lo [] h s = refl
floor-above a lo (r ∷ m) h s = ground arith

-- The bounds on what is found.
abbrev Between : ℕ → ℕ → Option AddressRange → Type 0
Between lo a none = Unit {0}
Between lo a (some r) = (lo ≤ r.low) × (r.low ≤ a)

Between-weaken :
    (lo lo' a : ℕ) (o : Option AddressRange) → lo ≤ lo' → Between lo' a o → Between lo a o
Between-weaken lo lo' a none h b = tt
Between-weaken lo lo' a (some r) h b = (omega arith, b.1)

Between-or_else :
    (lo a : ℕ) (o : Option AddressRange) (r : AddressRange)
    → Between lo a o
    → lo ≤ r.low
    → r.low ≤ a
    → Between lo a (or_else o r)
Between-or_else lo a none r b h k = (h, k)
Between-or_else lo a (some s) r b h k = b

floor-Between : (lo a : ℕ) (m : List AddressRange) → SortedFrom lo m → Between lo a (floor a m)
floor-Between lo a [] s = tt
floor-Between lo a (r ∷ m) s =
    on_test (Bool-cases (leb r.low a)) (floor-Between (suc r.low) a m s.1)
  where
    on_test :
        (leb r.low a ≡ true) ⊎ (leb r.low a ≡ false)
        → Between (suc r.low) a (floor a m)
        → Between lo a (floor a (r ∷ m))
    on_test (inl e) b = rw e (
        Between-or_else lo a (floor a m) r
          (Between-weaken lo (suc r.low) a (floor a m) (omega (arith, s.0)) b) s.0 (ground arith))
    on_test (inr e) b = rw e tt

-- An entry that is new takes the place of the one found, if it is closer.
abbrev pub closest : ℕ → AddressRange → Option AddressRange → Option AddressRange
closest a r none = if leb r.low a then some r else none
closest a r (some s) = if leb r.low a && ltb s.low r.low then some r else some s

-- The insertion behind a smaller entry, by what is found behind that entry.
closest-behind :
    (a : ℕ) (r s : AddressRange) (o : Option AddressRange)
    → s.low < r.low
    → s.low ≤ a
    → Between (suc s.low) a o
    → or_else (closest a r o) s ≡ closest a r (or_else o s)
closest-behind a r s none h k b = ground arith
closest-behind a r s (some t) h k b = ground arith

closest-kept :
    (a : ℕ) (r s : AddressRange) (o : Option AddressRange)
    → r.low ≤ s.low
    → Between (suc s.low) a o
    → or_else o s ≡ closest a r (or_else o s)
closest-kept a r s none h b = ground arith
closest-kept a r s (some t) h b = ground arith

closest-before :
    (a : ℕ) (r s : AddressRange) (o : Option AddressRange)
    → r.low < s.low
    → Between (suc s.low) a o
    → or_else (or_else o s) r ≡ closest a r (or_else o s)
closest-before a r s none h b = ground arith
closest-before a r s (some t) h b = ground arith

pub floor-insert_range :
    (a lo : ℕ) (r : AddressRange) (m : List AddressRange)
    → SortedFrom lo m
    → floor a (insert_range r m) ≡ closest a r (floor a m)
unfolding insert_range
floor-insert_range a lo r [] k = ground arith
floor-insert_range a lo r (s ∷ m) k =
    let inside : Between (suc s.low) a (floor a m) = floor-Between (suc s.low) a m k.1 in
    ground (
      arith,
      floor-insert_range a (suc s.low) r m k.1,
      closest-behind a r s (floor a m),
      closest-kept a r s (floor a m),
      closest-before a r s (floor a m),
    )

-- The entry covers an address: it starts there, or has it inside.
abbrev pub covers : ℕ → AddressRange → Bool
covers a r = r.low == a || (ltb r.low a && ltb a r.high)

abbrev pub answer : ℕ → Option AddressRange → Option Symbol
answer a none = none
answer a (some r) = if covers a r then some r.symbol else none

lower_bound-below :
    (a : ℕ) (r : AddressRange) (m : List AddressRange)
    → r.low < a
    → lower_bound a (r ∷ m) ≡ suc (lower_bound a m)
unfolding lower_bound
lower_bound-below a r m h = rw (lt→ltb r.low a h) refl

-- Two entries below the address: the search goes on from the second.
search_ranges-step :
    (a : ℕ) (r s : AddressRange) (m : List AddressRange)
    → r.low < a
    → s.low < a
    → search_ranges a (r ∷ s ∷ m) ≡ search_ranges a (s ∷ m)
unfolding search_ranges search_at symbol_before
search_ranges-step a r s m h k =
    ap (λ it. search_at a it (r ∷ s ∷ m))
      (lower_bound-below a r (s ∷ m) h ∙ ap suc (lower_bound-below a s m k))
    ∙ ap (λ it. search_at a it (s ∷ m)) (sym (lower_bound-below a s m k))

search_ranges-behind :
    (a : ℕ) (r : AddressRange) (m : List AddressRange)
    → r.low < a
    → SortedFrom (suc r.low) m
    → search_ranges a (r ∷ m) ≡ answer a (or_else (floor a m) r)
unfolding search_ranges search_at lower_bound symbol_before
search_ranges-behind a r [] h k = ground arith
search_ranges-behind a r (s ∷ m) h k = elim (Bool-cases (ltb s.low a)) [
  | inl below ↦
      search_ranges-step a r s m h (ltb→lt s.low a below)
      ∙ search_ranges-behind a s m (ltb→lt s.low a below) k.1
      ∙ ap (answer a) (found below)
  | inr above ↦ ground (arith, floor-above a (suc s.low) m)
]
  where
    found : ltb s.low a ≡ true → or_else (floor a m) s ≡ or_else (floor a (s ∷ m)) r
    found below = ground arith

pub search_ranges-floor :
    (a lo : ℕ) (m : List AddressRange) → SortedFrom lo m → search_ranges a m ≡ answer a (floor a m)
search_ranges-floor a lo [] k = unfold search_ranges search_at lower_bound symbol_before in refl
search_ranges-floor a lo (r ∷ m) k = elim (Bool-cases (ltb r.low a)) [
  | inl below ↦ search_ranges-behind a r m (ltb→lt r.low a below) k.1 ∙ ap (answer a) (found below)
  | inr above ↦
      unfold search_ranges search_at lower_bound symbol_before in
      ground (arith, floor-above a (suc r.low) m)
]
  where
    found : ltb r.low a ≡ true → or_else (floor a m) r ≡ floor a (r ∷ m)
    found below = ground arith
