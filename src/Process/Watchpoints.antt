-- ===== src/Process/Watchpoints.antt =====
-- Watchpoints: src/watchpoint.cpp, Process::CreateWatchpoint and the removals of
-- StoppointCollection<Watchpoint>.
pub mod Data
use building_a_debugger.Common.{
  ℕ, ◌+◌, bit_and, Bool, true, false, leb, ◌==◌, if◌then◌else◌, length, get_elem?, set, Option,
  none, some, already_created, not_aligned,
}
use building_a_debugger.Common.Bytes.{from_bytes}
use building_a_debugger.Common.Int.{ℤ, pos}
use building_a_debugger.Address.{sub64}
use building_a_debugger.Stoppoints.{push, contains_address, find_by_id, find_by_address, remove_at}
use building_a_debugger.Process.State.{
  StoppointMode, Watchpoint, Process, Env, Outcome, done, raised, unspecified, ◌>>=◌, ◌>>◌, get,
  modify, pure, watch_point,
}
use building_a_debugger.Process.Memory.{read_memory}
use building_a_debugger.Process.Hardware.{set_hardware_stoppoint, clear_hardware_stoppoint}

-- The constructor's check, `(address & size - 1) != 0`, in 64 bits.
unfoldable pub is_aligned : ℕ → ℕ → Bool
is_aligned address size = bit_and address (sub64 size 1) == 0

module _ {K : Type 0} where
  unfoldable pub watchpoint_at : ℕ → Process K → Outcome (Process K) Watchpoint
  watchpoint_at i p = elim (get_elem? p.watchpoints i) [ none ↦ unspecified | some w ↦ done w p ]

  abbrev pub put_watchpoint : ℕ → Watchpoint → Process K → Process K
  put_watchpoint i w p = record p { watchpoints = set p.watchpoints i w }

module _ {K : Type 0} (env : Env K) where
  -- UpdateData on the object: more than 8 bytes do not fit `new_data`.
  unfoldable pub updated : Watchpoint → Process K → Outcome (Process K) Watchpoint
  unfolding read_memory
  updated w = do
    read ← read_memory env w.address w.size
    let fresh : Watchpoint = record w {
      current_data = from_bytes read;
      previous_data = w.current_data;
    }
    if leb w.size 8 then pure fresh else (λ p. unspecified)

  unfoldable pub update_data : ℕ → Process K → Outcome (Process K) (Unit {0})
  unfolding watchpoint_at updated
  update_data i = do w ← watchpoint_at i; w' ← updated w; modify (put_watchpoint i w')

  -- Watchpoint::Enable
  unfoldable pub enable_watchpoint : ℕ → Process K → Outcome (Process K) (Unit {0})
  unfolding watchpoint_at set_hardware_stoppoint
  enable_watchpoint i = do
    w ← watchpoint_at i
    let arm = do
      index ← set_hardware_stoppoint env w.address w.mode w.size
      modify
          (put_watchpoint i (record w { hardware_register_index = some index; is_enabled = true }))
    if w.is_enabled then pure tt else arm

  unfoldable pub disarm : ℕ → Watchpoint → Process K → Outcome (Process K) (Unit {0})
  unfolding clear_hardware_stoppoint
  disarm i w = elim w.hardware_register_index [
    | none ↦ λ p. unspecified
    | some index ↦
        clear_hardware_stoppoint env index
        >> modify (put_watchpoint i (record w { is_enabled = false }))
  ]

  -- Watchpoint::Disable, which keeps the register index.
  unfoldable pub disable_watchpoint : ℕ → Process K → Outcome (Process K) (Unit {0})
  unfolding watchpoint_at disarm
  disable_watchpoint i = do w ← watchpoint_at i; if w.is_enabled then disarm i w else pure tt

  -- The constructor, which takes an id and reads the first data.
  unfoldable pub new_watchpoint : ℕ → StoppointMode → ℕ → Process K → Outcome (Process K) Watchpoint
  unfolding is_aligned updated
  new_watchpoint address mode size p =
      let id = p.last_watchpoint_id + 1 in
      let w : Watchpoint = record {
        id = pos id;
        address = address;
        mode = mode;
        is_enabled = false;
        size = size;
        current_data = 0;
        previous_data = 0;
        hardware_register_index = none;
      } in
      let counted : Process K = record p { last_watchpoint_id = id } in
      if is_aligned address size then updated w counted else raised not_aligned p

  unfoldable pub create_watchpoint : ℕ → StoppointMode → ℕ → Process K → Outcome (Process K) ℕ
  unfolding new_watchpoint
  create_watchpoint address mode size p =
      let build = (do
        w ← new_watchpoint address mode size
        q ← get
        modify (λ r. record r { watchpoints = push w r.watchpoints })
        pure (length q.watchpoints)) in
      if contains_address address p.watchpoints then raised already_created p else build p

  -- RemoveById and RemoveByAddress, from the iterator that the search returns.
  unfoldable pub remove_watchpoint : Option ℕ → Process K → Outcome (Process K) (Unit {0})
  unfolding disable_watchpoint
  remove_watchpoint none p = unspecified
  remove_watchpoint (some i) p =
      (disable_watchpoint i >> modify (λ q. record q { watchpoints = remove_at i q.watchpoints })) p

  unfoldable pub remove_watchpoint_by_id : ℤ → Process K → Outcome (Process K) (Unit {0})
  unfolding remove_watchpoint
  remove_watchpoint_by_id id p = remove_watchpoint (find_by_id id p.watchpoints) p

  unfoldable pub remove_watchpoint_by_address : ℕ → Process K → Outcome (Process K) (Unit {0})
  unfolding remove_watchpoint
  remove_watchpoint_by_address address p =
      remove_watchpoint (find_by_address address p.watchpoints) p
