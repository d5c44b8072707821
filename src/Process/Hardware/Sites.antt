-- ===== src/Process/Hardware/Sites.antt =====
-- The register operations and the collections of the process.
use building_a_debugger.Common.{
  ℕ, ◌+◌, ◌≡◌, could_not_write_user_area, could_not_write_fprs, leb, length,
}
use building_a_debugger.Registers.{Value, read_by_id_as_u64, u64_value, store_register}
use building_a_debugger.Registers.Table.{
  RegisterInfo, RegisterType, register_info_by_id, id_dr0, id_dr7,
}
use building_a_debugger.Process.State.{StoppointMode, Process, Env, lift}
use building_a_debugger.Process.Always.{Always, if-Always, >>=-Always, lift-Always, tell-Always}
use building_a_debugger.Process.Registers.{
  write_register, read_by_id, write_by_id, flush_register, flush_as, poke_word,
}
use building_a_debugger.Process.Hardware.{
  encode_size, find_free_stoppoint_register, set_hardware_stoppoint, clear_hardware_stoppoint,
}

-- The collections and the counters of ids are those of a process at the start.
abbrev pub SameSites : {K : Type 0} → Process K → Process K → Type 0
SameSites start q =
    (q.breakpoint_sites ≡ start.breakpoint_sites)
    × (q.last_site_id ≡ start.last_site_id)
    × (q.watchpoints ≡ start.watchpoints)
    × (q.last_watchpoint_id ≡ start.last_watchpoint_id)

module _ {K : Type 0} (env : Env K) (start : Process K) where
  flush_as-Always :
      (t : RegisterType) (info : RegisterInfo) (p : Process K)
      → SameSites start p
      → Always (SameSites start) (flush_as env t info p)
  unfolding flush_as
  flush_as-Always RegisterType.gpr info p h =
      tell-Always (SameSites start) (poke_word env info p) could_not_write_user_area p h (λ t. h)
  flush_as-Always RegisterType.sub_gpr info p h =
      tell-Always (SameSites start) (poke_word env info p) could_not_write_user_area p h (λ t. h)
  flush_as-Always RegisterType.fpr info p h =
      tell-Always (SameSites start) (env.kernel.set_fpregs p.user) could_not_write_fprs p h (λ t. h)
  flush_as-Always RegisterType.dr info p h =
      tell-Always (SameSites start) (poke_word env info p) could_not_write_user_area p h (λ t. h)

  write_register-Always :
      (info : RegisterInfo) (v : Value) (p : Process K)
      → SameSites start p
      → Always (SameSites start) (write_register env info v p)
  unfolding write_register flush_register
  write_register-Always info v p h =
      if-Always (SameSites start) (leb (length v.bytes) info.size) _ _
        (flush_as-Always info.type info (record p { user = store_register env.casts info v p.user })
          h)
        tt

  pub write_by_id-Always :
      (id value : ℕ) (p : Process K)
      → SameSites start p
      → Always (SameSites start) (write_by_id env id value p)
  unfolding write_by_id
  write_by_id-Always id value p h =
      >>=-Always (SameSites start) (lift (register_info_by_id env.layout id)) _ p
        (lift-Always (SameSites start) (register_info_by_id env.layout id) p h)
        (λ info q g. write_register-Always info (u64_value value) q g)

  pub read_by_id-Always :
      (id : ℕ) (p : Process K) → SameSites start p → Always (SameSites start) (read_by_id env id p)
  unfolding read_by_id
  read_by_id-Always id p h =
      lift-Always (SameSites start) (read_by_id_as_u64 env.layout id p.user) p h

  -- SetHardwareStoppoint and ClearHardwareStoppoint.
  pub set_hardware_stoppoint-Always :
      (address : ℕ) (mode : StoppointMode) (size : ℕ) (p : Process K)
      → SameSites start p
      → Always (SameSites start) (set_hardware_stoppoint env address mode size p)
  unfolding set_hardware_stoppoint
  set_hardware_stoppoint-Always address mode size p h =
      >>=-Always (SameSites start) (read_by_id env id_dr7) _ p (read_by_id-Always id_dr7 p h)
        λ control q g.
          >>=-Always (SameSites start) (lift (find_free_stoppoint_register control)) _ q
            (lift-Always (SameSites start) (find_free_stoppoint_register control) q g)
            λ free q g.
              >>=-Always (SameSites start) (write_by_id env (id_dr0 + free) address) _ q
                (write_by_id-Always (id_dr0 + free) address q g)
                λ u q g.
                  >>=-Always (SameSites start) (lift (encode_size size)) _ q
                    (lift-Always (SameSites start) (encode_size size) q g)
                    λ flag q g.
                      >>=-Always (SameSites start) (write_by_id env id_dr7 _) _ q
                        (write_by_id-Always id_dr7 _ q g) λ u q g. g

  pub clear_hardware_stoppoint-Always :
      (index : ℕ) (p : Process K)
      → SameSites start p
      → Always (SameSites start) (clear_hardware_stoppoint env index p)
  unfolding clear_hardware_stoppoint
  clear_hardware_stoppoint-Always index p h =
      >>=-Always (SameSites start) (write_by_id env (id_dr0 + index) 0) _ p
        (write_by_id-Always (id_dr0 + index) 0 p h)
        λ u q g.
          >>=-Always (SameSites start) (read_by_id env id_dr7) _ q (read_by_id-Always id_dr7 q g)
            λ control q g. write_by_id-Always id_dr7 _ q g
