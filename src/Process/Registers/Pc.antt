-- ===== src/Process/Registers/Pc.antt =====
-- Process::SetPc and Process::GetPc.
use building_a_debugger.Common.{ℕ, ◌+◌, ◌^◌, ◌<◌, ◌≡◌, refl, ap, ◌∙◌, inl, inr, arith, ok}
use building_a_debugger.Common.Int.{pos}
use building_a_debugger.Common.Bytes.{from_bytes, as_bytes, length-as_bytes, from_bytes-as_bytes}
use building_a_debugger.Registers.{
  store_register, get_u64, read_by_id_as_u64, u64_value, FloatCasts,
}
use building_a_debugger.Registers.RoundTrip.{read_register-store_register, read_by_id_as_u64_found}
use building_a_debugger.Registers.Table.{
  RegisterInfo, RegisterType, RegisterFormat, Layout, register_info_by_id, id_rip,
}
use building_a_debugger.Process.State.{Process, Env}

abbrev pub rip : Layout → RegisterInfo
rip l = record {
  id = 16;
  name = "rip";
  dwarf_id = pos 16;
  size = 8;
  offset = l.gpr_offset "rip";
  type = RegisterType.gpr;
  format = RegisterFormat.uint;
}

rip_found : (l : Layout) → register_info_by_id l id_rip ≡ ok (rip l)
unfolding register_info_by_id
rip_found l = refl

u64_of_value : (v : ℕ) → get_u64 (u64_value v) ≡ ok (from_bytes (as_bytes 8 v))
unfolding get_u64
u64_of_value v = refl

pub stored_pc :
    (casts : FloatCasts) (l : Layout) (user : ℕ → ℕ) (v : ℕ)
    → v < 2 ^ 64
    → read_by_id_as_u64 l id_rip (store_register casts (rip l) (u64_value v) user) ≡ ok v
stored_pc casts l user v small =
    read_by_id_as_u64_found l id_rip (rip l) (store_register casts (rip l) (u64_value v) user)
      (u64_value v) (rip_found l)
      (read_register-store_register casts (rip l) (u64_value v) user (l.gpr_offset "rip" + 8)
        (length-as_bytes 8 v, inl (refl, refl, refl)) (inr (omega arith))).0
    ∙ u64_of_value v
    ∙ ap ok (from_bytes-as_bytes 8 v small)

module _ {K : Type 0} (env : Env K) where
  -- The process with a program counter in its copy of the user area.
  abbrev pub with_pc : ℕ → Process K → Process K
  with_pc v p = record p { user = store_register env.casts (rip env.layout) (u64_value v) p.user }
