-- ===== src/Process/Frame/Memory.antt =====
-- Reading and writing memory, the debug registers and the disassembler, on an invariant of the
-- breakpoint sites.
use building_a_debugger.Common.{
  ℕ, zero, suc, ◌+◌, ◌*◌, ◌%◌, ◌^◌, ◌==◌, List, [], ◌∷◌, Option, none, some, leb, length, drop,
  get_elem?, if◌then◌else◌,
}
use building_a_debugger.Address.{add64}
use building_a_debugger.Common.Int.{ℤ}
use building_a_debugger.Stoppoints.{get_in_region, get_by_address, contains_address}
use building_a_debugger.Registers.Table.{id_rip, id_dr0, id_dr6, id_dr7}
use building_a_debugger.Process.State.{
  Process, BreakpointSite, Watchpoint, site_point, watch_point, StoppointMode, Env, done,
  unspecified, pure, get, lift, ask, tell,
}
use building_a_debugger.Process.Always.{Always, if-Always}
use building_a_debugger.Process.Registers.{read_by_id, write_by_id}
use building_a_debugger.Process.Memory.{
  remote_ranges, restore_traps, read_memory, read_memory_without_traps, next_word, write_loop,
  write_memory,
}
use building_a_debugger.Process.Hardware.{
  trailing_zeros, find_free_stoppoint_register, encode_size, set_hardware_stoppoint,
  clear_hardware_stoppoint, get_current_hardware_stoppoint, id_at,
}
use building_a_debugger.Disassembler.{Decoder, start_address, disassemble}
use building_a_debugger.Process.Frame.{
  Framed, Keeps, bind-Keeps, if-Keeps, lift-Keeps, pure-Keeps, get-Keeps, ask-Keeps, tell-Keeps,
  read_by_id-Keeps, write_by_id-Keeps,
}

module _ {K : Type 0} (env : Env K) (I : Process K → Type 0) (framed : Framed I) where
  pub read_memory-Keeps : (address amount : ℕ) → Keeps I (read_memory env address amount)
  unfolding read_memory
  read_memory-Keeps address amount =
      bind-Keeps I (ask (env.kernel.vm_read (remote_ranges amount amount address)) _) _
        (ask-Keeps env I framed (env.kernel.vm_read (remote_ranges amount amount address)) _)
        λ bytes p i. i

  restored-Keeps :
      (restored : Option (List ℕ))
      → Keeps I
          (λ (q : Process K). elim restored [ none ↦ unspecified | some bytes ↦ done bytes q ])
  restored-Keeps none p i = tt
  restored-Keeps (some bytes) p i = i

  pub read_memory_without_traps-Keeps :
      (address amount : ℕ) → Keeps I (read_memory_without_traps env address amount)
  unfolding read_memory_without_traps
  read_memory_without_traps-Keeps address amount =
      bind-Keeps I (read_memory env address amount) _ (read_memory-Keeps address amount) λ memory.
        bind-Keeps I get _ (get-Keeps I) λ p. restored-Keeps (
          restore_traps address (get_in_region address (add64 address amount) p.breakpoint_sites)
            memory)

  next_word-Keeps : (address : ℕ) (rest : List ℕ) → Keeps I (next_word env address rest)
  unfolding next_word
  next_word-Keeps address rest p i =
      if-Always I (leb 8 (length rest)) _ _ i (
        bind-Keeps I (read_memory env address 8) _ (read_memory-Keeps address 8) (λ read p i. i) p
          i)

  write_loop-Keeps :
      (fuel address written : ℕ) (rest : List ℕ)
      → Keeps I (write_loop env fuel address written rest)
  unfolding write_loop
  write_loop-Keeps zero address written rest = pure-Keeps I tt
  write_loop-Keeps (suc fuel) address written [] = pure-Keeps I tt
  write_loop-Keeps (suc fuel) address written (b ∷ rest) =
      bind-Keeps I (next_word env (add64 address written) (b ∷ rest)) _
        (next_word-Keeps (add64 address written) (b ∷ rest))
        λ word.
          bind-Keeps I (tell (env.kernel.poke_data (add64 address written) word) _) _
            (tell-Keeps env I framed (env.kernel.poke_data (add64 address written) word) _)
            λ u. write_loop-Keeps fuel address (written + 8) (drop 8 (b ∷ rest))

  pub write_memory-Keeps : (address : ℕ) (bytes : List ℕ) → Keeps I (write_memory env address bytes)
  unfolding write_memory
  write_memory-Keeps address bytes = write_loop-Keeps (length bytes) address 0 bytes

  start_address-Keeps :
      (decode : Decoder) (address : Option ℕ) → Keeps I (start_address env decode address)
  start_address-Keeps decode none = read_by_id-Keeps env I framed id_rip
  start_address-Keeps decode (some address) = pure-Keeps I address

  pub disassemble-Keeps :
      (decode : Decoder) (n : ℕ) (address : Option ℕ) → Keeps I (disassemble env decode n address)
  unfolding disassemble
  disassemble-Keeps decode n address =
      bind-Keeps I (start_address env decode address) _ (start_address-Keeps decode address)
        λ start.
          bind-Keeps I (read_memory_without_traps env start (n * 15 % 2 ^ 64)) _
            (read_memory_without_traps-Keeps start (n * 15 % 2 ^ 64)) λ code p i. i

  pub set_hardware_stoppoint-Keeps :
      (address : ℕ) (mode : StoppointMode) (size : ℕ)
      → Keeps I (set_hardware_stoppoint env address mode size)
  unfolding set_hardware_stoppoint
  set_hardware_stoppoint-Keeps address mode size =
      bind-Keeps I (read_by_id env id_dr7) _ (read_by_id-Keeps env I framed id_dr7) λ control.
        bind-Keeps I (lift (find_free_stoppoint_register control)) _
          (lift-Keeps I (find_free_stoppoint_register control))
          λ free.
            bind-Keeps I (write_by_id env (id_dr0 + free) address) _
              (write_by_id-Keeps env I framed (id_dr0 + free) address)
              λ u.
                bind-Keeps I (lift (encode_size size)) _ (lift-Keeps I (encode_size size)) λ flag.
                  bind-Keeps I (write_by_id env id_dr7 _) _
                    (write_by_id-Keeps env I framed id_dr7 _) λ u. pure-Keeps I free

  pub clear_hardware_stoppoint-Keeps : (index : ℕ) → Keeps I (clear_hardware_stoppoint env index)
  unfolding clear_hardware_stoppoint
  clear_hardware_stoppoint-Keeps index =
      bind-Keeps I (write_by_id env (id_dr0 + index) 0) _
        (write_by_id-Keeps env I framed (id_dr0 + index) 0)
        λ u.
          bind-Keeps I (read_by_id env id_dr7) _ (read_by_id-Keeps env I framed id_dr7)
            λ control. write_by_id-Keeps env I framed id_dr7 _

  status_index-Keeps :
      (status : ℕ)
      → Keeps I (
          if status == 0 then (λ (q : Process K). unspecified) else pure (trailing_zeros 64 status))
  status_index-Keeps status = if-Keeps I (status == 0) _ _ (λ p i. tt) (λ p i. i)

  id_at-Keeps : {A : Type 0} (id : A → ℤ) (i : ℕ) (ps : List A) → Keeps I (id_at env id i ps)
  unfolding id_at
  id_at-Keeps id n ps p i =
      elim (get_elem? ps n)
        as (λ o. Always I (elim o [ none ↦ unspecified | some a ↦ done (id a) p ])) [
          | none ↦ tt
          | some a ↦ i
        ]

  pub get_current_hardware_stoppoint-Keeps : Keeps I (get_current_hardware_stoppoint env)
  unfolding get_current_hardware_stoppoint
  get_current_hardware_stoppoint-Keeps =
      bind-Keeps I (read_by_id env id_dr6) _ (read_by_id-Keeps env I framed id_dr6) λ status.
        bind-Keeps I _ _ (status_index-Keeps status) λ index.
          bind-Keeps I (read_by_id env (id_dr0 + index)) _
            (read_by_id-Keeps env I framed (id_dr0 + index))
            λ address. bind-Keeps I get _ (get-Keeps I) λ p.
              if-Keeps I (contains_address address p.breakpoint_sites) _ _
                (bind-Keeps I (lift (get_by_address address p.breakpoint_sites)) _ (lift-Keeps I _)
                  λ n.
                    bind-Keeps I (id_at env (λ (b : BreakpointSite). b.id) n p.breakpoint_sites) _
                      (id_at-Keeps (λ b. b.id) n p.breakpoint_sites) λ id p i. i)
                (bind-Keeps I (lift (get_by_address address p.watchpoints)) _ (lift-Keeps I _) λ n.
                  bind-Keeps I (id_at env (λ (w : Watchpoint). w.id) n p.watchpoints) _
                    (id_at-Keeps (λ w. w.id) n p.watchpoints) λ id p i. i)
