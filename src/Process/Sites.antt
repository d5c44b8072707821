-- ===== src/Process/Sites.antt =====
-- Breakpoint sites: src/breakpoint_site.cpp, Process::CreateBreakpointSite, and the removals of
-- StoppointCollection<BreakpointSite>.
pub mod Software
pub mod Enable
pub mod Keys
pub mod Invariant
pub mod Create
use building_a_debugger.Common.{
  ℕ, zero, suc, ◌+◌, ◌-◌, ◌^◌, bit_and, bit_or, Bool, true, false, List, [], ◌∷◌, ◌++◌, ◌==◌,
  if◌then◌else◌, length, get_elem?, set, Option, none, some, already_created, enabling_failed,
  disabling_failed,
}
use building_a_debugger.Common.Int.{ℤ, pos, negsuc}
use building_a_debugger.Stoppoints.{push, contains_address, find_by_id, find_by_address, remove_at}
use building_a_debugger.Process.State.{
  BreakpointSite, execute, Process, Env, Outcome, done, raised, aborted, unspecified, ◌>>=◌, ◌>>◌,
  get, modify, raise, ask, tell, pure, site_point,
}
use building_a_debugger.Process.Hardware.{set_hardware_stoppoint, clear_hardware_stoppoint}

-- The word with its low byte replaced: `(data & ~0xff) | byte`.
unfoldable pub replace_low_byte : ℕ → ℕ → ℕ
replace_low_byte word byte = bit_or (bit_and word (2 ^ 64 - 256)) byte

abbrev pub int3 : ℕ
int3 = 0xcc

module _ {K : Type 0} where
  -- The object that a reference names.
  unfoldable pub site_at : ℕ → Process K → Outcome (Process K) BreakpointSite
  site_at i p = elim (get_elem? p.breakpoint_sites i) [ none ↦ unspecified | some b ↦ done b p ]

  abbrev pub put_site : ℕ → BreakpointSite → Process K → Process K
  put_site i b p = record p { breakpoint_sites = set p.breakpoint_sites i b }

module _ {K : Type 0} (env : Env K) where
  -- BreakpointSite::Enable
  unfoldable pub enable_hardware : ℕ → BreakpointSite → Process K → Outcome (Process K) (Unit {0})
  enable_hardware i b = do
    index ← set_hardware_stoppoint env b.address execute 1
    modify (put_site i (record b { hardware_register_index = some index; is_enabled = true }))

  unfoldable pub enable_software : ℕ → BreakpointSite → Process K → Outcome (Process K) (Unit {0})
  unfolding replace_low_byte
  enable_software i b = do
    word ← ask (env.kernel.peek_data b.address) enabling_failed
    let saved = record b { saved_data = bit_and word 0xff }
    modify (put_site i saved)
    tell (env.kernel.poke_data b.address (replace_low_byte word int3)) enabling_failed
    modify (put_site i (record saved { is_enabled = true }))

  unfoldable pub enable_site : ℕ → Process K → Outcome (Process K) (Unit {0})
  unfolding enable_hardware enable_software site_at
  enable_site i = do
    b ← site_at i
    if b.is_enabled
        then pure tt
        else if b.is_hardware
        then enable_hardware i b
        else enable_software i b

  -- BreakpointSite::Disable. The register index of a hardware site that is enabled is set.
  unfoldable pub disarm_site :
      ℕ → BreakpointSite → Option ℕ → Process K → Outcome (Process K) (Unit {0})
  disarm_site i b none = λ p. unspecified
  disarm_site i b (some index) =
      clear_hardware_stoppoint env index
      >> modify (put_site i (record b { hardware_register_index = none; is_enabled = false }))

  unfoldable pub disable_hardware : ℕ → BreakpointSite → Process K → Outcome (Process K) (Unit {0})
  unfolding disarm_site
  disable_hardware i b = disarm_site i b b.hardware_register_index

  unfoldable pub disable_software : ℕ → BreakpointSite → Process K → Outcome (Process K) (Unit {0})
  unfolding replace_low_byte
  disable_software i b = do
    word ← ask (env.kernel.peek_data b.address) disabling_failed
    tell (env.kernel.poke_data b.address (replace_low_byte word b.saved_data)) disabling_failed
    modify (put_site i (record b { is_enabled = false }))

  unfoldable pub disable_site : ℕ → Process K → Outcome (Process K) (Unit {0})
  unfolding disable_hardware disable_software site_at
  disable_site i = do
    b ← site_at i
    if b.is_enabled
        then (if b.is_hardware then disable_hardware i b else disable_software i b)
        else pure tt

  -- CreateBreakpointSite with the constructor: the reference to the new site. An internal site
  -- has the id -1 and takes no number.
  unfoldable pub create_breakpoint_site : ℕ → Bool → Bool → Process K → Outcome (Process K) ℕ
  create_breakpoint_site address hardware internal p =
      let count = if internal then p.last_site_id else p.last_site_id + 1 in
      let site : BreakpointSite = record {
        id = if internal then negsuc 0 else pos (p.last_site_id + 1);
        address = address;
        is_enabled = false;
        saved_data = 0;
        is_hardware = hardware;
        is_internal = internal;
        hardware_register_index = none;
      } in
      if contains_address address p.breakpoint_sites
      then raised already_created p
      else done (length p.breakpoint_sites)
          (record p { breakpoint_sites = push site p.breakpoint_sites; last_site_id = count })

  -- RemoveById and RemoveByAddress, from the iterator that the search returns.
  unfoldable pub remove_site : Option ℕ → Process K → Outcome (Process K) (Unit {0})
  unfolding disable_site
  remove_site none p = unspecified
  remove_site (some i) p =
      (disable_site i
          >> modify (λ q. record q { breakpoint_sites = remove_at i q.breakpoint_sites }))
        p

  unfoldable pub remove_site_by_id : ℤ → Process K → Outcome (Process K) (Unit {0})
  unfolding remove_site
  remove_site_by_id id p = remove_site (find_by_id id p.breakpoint_sites) p

  unfoldable pub remove_site_by_address : ℕ → Process K → Outcome (Process K) (Unit {0})
  unfolding remove_site
  remove_site_by_address address p = remove_site (find_by_address address p.breakpoint_sites) p
