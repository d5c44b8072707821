-- ===== src/Process/Frame/Watchpoints.antt =====
-- Watchpoints, on an invariant of the breakpoint sites.
use building_a_debugger.Common.{ℕ, ◌+◌, Option, none, some, leb, set, get_elem?, false, not_aligned}
use building_a_debugger.Common.Int.{ℤ, pos}
use building_a_debugger.Stoppoints.{push, remove_at, contains_address, find_by_id}
use building_a_debugger.Process.State.{
  Process, Watchpoint, watch_point, StoppointMode, Env, raised, done, unspecified, modify,
}
use building_a_debugger.Process.Always.{Always, if-Always}
use building_a_debugger.Process.Memory.{read_memory}
use building_a_debugger.Process.Hardware.{set_hardware_stoppoint, clear_hardware_stoppoint}
use building_a_debugger.Process.Watchpoints.{
  is_aligned, watchpoint_at, put_watchpoint, updated, update_data, enable_watchpoint, disarm,
  disable_watchpoint, new_watchpoint, create_watchpoint, remove_watchpoint, remove_watchpoint_by_id,
}
use building_a_debugger.Process.Frame.{Framed, Keeps, bind-Keeps, if-Keeps}
use building_a_debugger.Process.Frame.Memory.{
  read_memory-Keeps, set_hardware_stoppoint-Keeps, clear_hardware_stoppoint-Keeps,
}

module _ {K : Type 0} (env : Env K) (I : Process K → Type 0) (framed : Framed I) where
  pub watchpoint_at-Keeps : (i : ℕ) → Keeps I (watchpoint_at i)
  unfolding watchpoint_at
  watchpoint_at-Keeps n p i =
      elim (get_elem? p.watchpoints n)
        as (λ o. Always I (elim o [ none ↦ unspecified | some w ↦ done w p ])) [
          | none ↦ tt
          | some w ↦ i
        ]

  put_watchpoint-Keeps : (n : ℕ) (w : Watchpoint) → Keeps I (modify (put_watchpoint n w))
  put_watchpoint-Keeps n w p i = framed.with_watchpoints p i (set p.watchpoints n w)

  updated-Keeps : (w : Watchpoint) → Keeps I (updated env w)
  unfolding updated
  updated-Keeps w =
      bind-Keeps I (read_memory env w.address w.size) _
        (read_memory-Keeps env I framed w.address w.size)
        λ read. if-Keeps I (leb w.size 8) _ _ (λ p i. i) (λ p i. tt)

  pub update_data-Keeps : (n : ℕ) → Keeps I (update_data env n)
  unfolding update_data
  update_data-Keeps n =
      bind-Keeps I (watchpoint_at n) _ (watchpoint_at-Keeps n)
        λ w. bind-Keeps I (updated env w) _ (updated-Keeps w) λ w'. put_watchpoint-Keeps n w'

  pub enable_watchpoint-Keeps : (n : ℕ) → Keeps I (enable_watchpoint env n)
  unfolding enable_watchpoint
  enable_watchpoint-Keeps n = bind-Keeps I (watchpoint_at n) _ (watchpoint_at-Keeps n) λ w.
      if-Keeps I w.is_enabled _ _ (λ p i. i)
        (bind-Keeps I (set_hardware_stoppoint env w.address w.mode w.size) _
          (set_hardware_stoppoint-Keeps env I framed w.address w.mode w.size)
          λ index. put_watchpoint-Keeps n _)

  disarm-Keeps : (n : ℕ) (w : Watchpoint) → Keeps I (disarm env n w)
  unfolding disarm
  disarm-Keeps n w = by_index w.hardware_register_index
    where
      by_index :
          (held : Option ℕ) → Keeps I (disarm env n (record w { hardware_register_index = held }))
      by_index none p i = tt
      by_index (some index) p i =
          bind-Keeps I (clear_hardware_stoppoint env index) _
            (clear_hardware_stoppoint-Keeps env I framed index) (λ u. put_watchpoint-Keeps n _) p i

  pub disable_watchpoint-Keeps : (n : ℕ) → Keeps I (disable_watchpoint env n)
  unfolding disable_watchpoint
  disable_watchpoint-Keeps n =
      bind-Keeps I (watchpoint_at n) _ (watchpoint_at-Keeps n)
        λ w. if-Keeps I w.is_enabled _ _ (disarm-Keeps n w) (λ p i. i)

  new_watchpoint-Keeps :
      (address : ℕ) (mode : StoppointMode) (size : ℕ)
      → Keeps I (new_watchpoint env address mode size)
  unfolding new_watchpoint
  new_watchpoint-Keeps address mode size p i =
      let w : Watchpoint = record {
        id = pos (p.last_watchpoint_id + 1);
        address = address;
        mode = mode;
        is_enabled = false;
        size = size;
        current_data = 0;
        previous_data = 0;
        hardware_register_index = none;
      } in
      let counted : Process K = record p { last_watchpoint_id = p.last_watchpoint_id + 1 } in
      if-Always I (is_aligned address size) (updated env w counted) (raised not_aligned p)
        (updated-Keeps w counted (framed.with_count p i (p.last_watchpoint_id + 1))) i

  pub create_watchpoint-Keeps :
      (address : ℕ) (mode : StoppointMode) (size : ℕ)
      → Keeps I (create_watchpoint env address mode size)
  unfolding create_watchpoint
  create_watchpoint-Keeps address mode size p i =
      if-Always I (contains_address address p.watchpoints) _ _ i (
        bind-Keeps I (new_watchpoint env address mode size) _
          (new_watchpoint-Keeps address mode size)
          (λ w q j. framed.with_watchpoints q j (push w q.watchpoints)) p i)

  remove_watchpoint-Keeps : (found : Option ℕ) → Keeps I (remove_watchpoint env found)
  unfolding remove_watchpoint
  remove_watchpoint-Keeps none p i = tt
  remove_watchpoint-Keeps (some n) p i =
      bind-Keeps I (disable_watchpoint env n) _ (disable_watchpoint-Keeps n)
        (λ u q j. framed.with_watchpoints q j (remove_at n q.watchpoints)) p i

  pub remove_watchpoint_by_id-Keeps : (id : ℤ) → Keeps I (remove_watchpoint_by_id env id)
  unfolding remove_watchpoint_by_id
  remove_watchpoint_by_id-Keeps id p i = remove_watchpoint-Keeps (find_by_id id p.watchpoints) p i
