-- ===== src/Stoppoints.antt =====
-- include/libsdb/stoppoint_collection.hpp: an ordered collection of breakpoint sites or
-- watchpoints. A reference to a member is its index.
pub mod Laws
use building_a_debugger.Common.{
  ℕ, suc, Bool, true, false, ◌&&◌, List, [], ◌∷◌, ◌++◌, if◌then◌else◌, Option, none, some, Run, ok,
  throws, undefined, length, get_elem?, select, erase_at, invalid_stop_point_id,
  stop_point_not_found,
}
use building_a_debugger.Common.Int.{ℤ, ◌==ℤ◌}

-- What the template asks of its parameter.
pub record StopPoint {ℓ} (P : Type ℓ) : Type ℓ where
  pub get_id : P → ℤ
  pub at_address : ℕ → P → Bool
  pub is_in_range : ℕ → ℕ → P → Bool
  pub is_enabled : P → Bool

-- std::find_if, as the index of the first element that passes.
unfoldable pub find_if {ℓ} : {P : Type ℓ} → (P → Bool) → List P → Option ℕ
find_if test [] = none
find_if test (p ∷ ps) =
    if test p then some 0 else elim (find_if test ps) [ none ↦ none | some i ↦ some (suc i) ]

abbrev pub is_found : Option ℕ → Bool
is_found none = false
is_found (some i) = true

module _ {ℓ} {P : Type ℓ} ⦃point : StopPoint P⦄ where
  abbrev pub push : P → List P → List P
  push p ps = ps ++ p ∷ []

  unfoldable pub find_by_id : ℤ → List P → Option ℕ
  unfolding find_if
  find_by_id id = find_if (λ p. point.get_id p ==ℤ id)

  unfoldable pub find_by_address : ℕ → List P → Option ℕ
  unfolding find_if
  find_by_address address = find_if (point.at_address address)

  unfoldable pub contains_id : ℤ → List P → Bool
  unfolding find_by_id
  contains_id id ps = is_found (find_by_id id ps)

  unfoldable pub contains_address : ℕ → List P → Bool
  unfolding find_by_address
  contains_address address ps = is_found (find_by_address address ps)

  unfoldable pub get_by_id : ℤ → List P → Run ℕ
  unfolding find_by_id
  get_by_id id ps = elim (find_by_id id ps) [ none ↦ throws invalid_stop_point_id | some i ↦ ok i ]

  unfoldable pub get_by_address : ℕ → List P → Run ℕ
  unfolding find_by_address
  get_by_address address ps = elim (find_by_address address ps) [
    | none ↦ throws stop_point_not_found
    | some i ↦ ok i
  ]

  abbrev pub enabled_at : List P → ℕ → Bool
  enabled_at ps i = elim (get_elem? ps i) [ none ↦ false | some p ↦ point.is_enabled p ]

  -- `ContainsAddress(address) && GetByAddress(address).IsEnabled()`
  unfoldable pub enabled_stop_point_at_address : ℕ → List P → Bool
  unfolding contains_address get_by_address
  enabled_stop_point_at_address address ps =
      contains_address address ps && elim (get_by_address address ps) [
        | ok i ↦ enabled_at ps i
        | throws e ↦ false
        | undefined ↦ false
      ]

  unfoldable pub get_in_region : ℕ → ℕ → List P → List P
  get_in_region low high = select (point.is_in_range low high)

  -- The two removals. The end iterator is dereferenced if the point is missing, and `Disable`
  -- comes between the search and the erasure.
  abbrev pub remove_at : ℕ → List P → List P
  remove_at = erase_at

  abbrev pub size : List P → ℕ
  size = length

  abbrev pub is_empty : List P → Bool
  is_empty [] = true
  is_empty (p ∷ ps) = false
