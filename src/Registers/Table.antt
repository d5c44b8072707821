-- ===== src/Registers/Table.antt =====
-- The register table: include/libsdb/detail/registers.inc and register_info.hpp. A RegisterID is
-- the position of its entry.
use Prim.Native.String.{String}
use building_a_debugger.Common.{
  ℕ, ◌+◌, ◌*◌, Bool, List, [], ◌∷◌, ◌++◌, ◌==◌, if◌then◌else◌, Run, ok, throws, no_register_info,
}
use building_a_debugger.Common.Int.{ℤ, pos, negsuc, ◌==ℤ◌}
use building_a_debugger.Common.Text.{codes, text_eq}

pub data RegisterType : Type 0 where
  gpr sub_gpr fpr dr : RegisterType

pub data RegisterFormat : Type 0 where
  uint double_float long_double vector : RegisterFormat

pub record RegisterInfo : Type 0 where
  pub id : ℕ
  pub name : String
  pub dwarf_id : ℤ
  pub size : ℕ
  pub offset : ℕ
  pub type : RegisterType
  pub format : RegisterFormat

-- What sys/user.h says of `struct user`: the offsets and sizes of its members.
pub record Layout : Type 0 where
  pub gpr_offset : String → ℕ
  pub fpr_offset : String → ℕ
  pub fpr_size : String → ℕ
  pub st_space : ℕ
  pub xmm_space : ℕ
  pub debug_registers : ℕ

abbrev pub register : String → ℤ → ℕ → ℕ → RegisterType → RegisterFormat → RegisterInfo
register name dwarf_id size offset type format = record {
  id = 0;
  name = name;
  dwarf_id = dwarf_id;
  size = size;
  offset = offset;
  type = type;
  format = format;
}

-- The enumerators are numbered in the order of the table.
abbrev pub number_from : ℕ → List RegisterInfo → List RegisterInfo
number_from n [] = []
number_from n (r ∷ rs) = record r { id = n } ∷ number_from (n + 1) rs

-- RegisterInfoBy: std::find_if over the table.
unfoldable pub register_info_by : (RegisterInfo → Bool) → List RegisterInfo → Run RegisterInfo
register_info_by test [] = throws no_register_info
register_info_by test (r ∷ rs) = if test r then ok r else register_info_by test rs

module _ (l : Layout) where
  abbrev no_dwarf_id : ℤ
  no_dwarf_id = negsuc 0

  abbrev gpr_64 : String → ℤ → RegisterInfo
  gpr_64 name dwarf_id =
      register name dwarf_id 8 (l.gpr_offset name) RegisterType.gpr RegisterFormat.uint

  abbrev gpr_32 : String → String → RegisterInfo
  gpr_32 name super =
      register name no_dwarf_id 4 (l.gpr_offset super) RegisterType.sub_gpr RegisterFormat.uint

  abbrev gpr_16 : String → String → RegisterInfo
  gpr_16 name super =
      register name no_dwarf_id 2 (l.gpr_offset super) RegisterType.sub_gpr RegisterFormat.uint

  abbrev gpr_8h : String → String → RegisterInfo
  gpr_8h name super =
      register name no_dwarf_id 1 (l.gpr_offset super + 1) RegisterType.sub_gpr RegisterFormat.uint

  abbrev gpr_8l : String → String → RegisterInfo
  gpr_8l name super =
      register name no_dwarf_id 1 (l.gpr_offset super) RegisterType.sub_gpr RegisterFormat.uint

  abbrev fp_reg : String → ℤ → String → RegisterInfo
  fp_reg name dwarf_id member =
      register name dwarf_id (l.fpr_size member) (l.fpr_offset member) RegisterType.fpr
        RegisterFormat.uint

  abbrev fp_st : String → ℕ → RegisterInfo
  fp_st name number =
      register name (pos (33 + number)) 16 (l.st_space + number * 16) RegisterType.fpr
        RegisterFormat.long_double

  abbrev fp_mm : String → ℕ → RegisterInfo
  fp_mm name number =
      register name (pos (41 + number)) 8 (l.st_space + number * 16) RegisterType.fpr
        RegisterFormat.vector

  abbrev fp_xmm : String → ℕ → RegisterInfo
  fp_xmm name number =
      register name (pos (17 + number)) 16 (l.xmm_space + number * 16) RegisterType.fpr
        RegisterFormat.vector

  abbrev debug_reg : String → ℕ → RegisterInfo
  debug_reg name number =
      register name no_dwarf_id 8 (l.debug_registers + number * 8) RegisterType.dr
        RegisterFormat.uint

  -- The general purpose registers and their parts.
  unfoldable pub general_registers : List RegisterInfo
  general_registers =
      gpr_64 "rax" (pos 0)
      ∷ gpr_64 "rdx" (pos 1)
      ∷ gpr_64 "rcx" (pos 2)
      ∷ gpr_64 "rbx" (pos 3)
      ∷ gpr_64 "rsi" (pos 4)
      ∷ gpr_64 "rdi" (pos 5)
      ∷ gpr_64 "rbp" (pos 6)
      ∷ gpr_64 "rsp" (pos 7)
      ∷ gpr_64 "r8" (pos 8)
      ∷ gpr_64 "r9" (pos 9)
      ∷ gpr_64 "r10" (pos 10)
      ∷ gpr_64 "r11" (pos 11)
      ∷ gpr_64 "r12" (pos 12)
      ∷ gpr_64 "r13" (pos 13)
      ∷ gpr_64 "r14" (pos 14)
      ∷ gpr_64 "r15" (pos 15)
      ∷ gpr_64 "rip" (pos 16)
      ∷ gpr_64 "eflags" (pos 49)
      ∷ gpr_64 "cs" (pos 51)
      ∷ gpr_64 "fs" (pos 54)
      ∷ gpr_64 "gs" (pos 55)
      ∷ gpr_64 "ss" (pos 52)
      ∷ gpr_64 "ds" (pos 53)
      ∷ gpr_64 "es" (pos 50)
      ∷ gpr_64 "orig_rax" (negsuc 0)
      ∷ gpr_32 "eax" "rax"
      ∷ gpr_32 "edx" "rdx"
      ∷ gpr_32 "ecx" "rcx"
      ∷ gpr_32 "ebx" "rbx"
      ∷ gpr_32 "esi" "rsi"
      ∷ gpr_32 "edi" "rdi"
      ∷ gpr_32 "ebp" "rbp"
      ∷ gpr_32 "esp" "rsp"
      ∷ gpr_32 "r8d" "r8"
      ∷ gpr_32 "r9d" "r9"
      ∷ gpr_32 "r10d" "r10"
      ∷ gpr_32 "r11d" "r11"
      ∷ gpr_32 "r12d" "r12"
      ∷ gpr_32 "r13d" "r13"
      ∷ gpr_32 "r14d" "r14"
      ∷ gpr_32 "r15d" "r15"
      ∷ gpr_16 "ax" "rax"
      ∷ gpr_16 "dx" "rdx"
      ∷ gpr_16 "cx" "rcx"
      ∷ gpr_16 "bx" "rbx"
      ∷ gpr_16 "si" "rsi"
      ∷ gpr_16 "di" "rdi"
      ∷ gpr_16 "bp" "rbp"
      ∷ gpr_16 "sp" "rsp"
      ∷ gpr_16 "r8w" "r8"
      ∷ gpr_16 "r9w" "r9"
      ∷ gpr_16 "r10w" "r10"
      ∷ gpr_16 "r11w" "r11"
      ∷ gpr_16 "r12w" "r12"
      ∷ gpr_16 "r13w" "r13"
      ∷ gpr_16 "r14w" "r14"
      ∷ gpr_16 "r15w" "r15"
      ∷ gpr_8h "ah" "rax"
      ∷ gpr_8h "dh" "rdx"
      ∷ gpr_8h "ch" "rcx"
      ∷ gpr_8h "bh" "rbx"
      ∷ gpr_8l "al" "rax"
      ∷ gpr_8l "dl" "rdx"
      ∷ gpr_8l "cl" "rcx"
      ∷ gpr_8l "bl" "rbx"
      ∷ gpr_8l "sil" "rsi"
      ∷ gpr_8l "dil" "rdi"
      ∷ gpr_8l "bpl" "rbp"
      ∷ gpr_8l "spl" "rsp"
      ∷ gpr_8l "r8b" "r8"
      ∷ gpr_8l "r9b" "r9"
      ∷ gpr_8l "r10b" "r10"
      ∷ gpr_8l "r11b" "r11"
      ∷ gpr_8l "r12b" "r12"
      ∷ gpr_8l "r13b" "r13"
      ∷ gpr_8l "r14b" "r14"
      ∷ gpr_8l "r15b" "r15"
      ∷ []

  -- The x87, MMX and SSE registers.
  unfoldable pub floating_registers : List RegisterInfo
  floating_registers =
      fp_reg "fcw" (pos 65) "cwd"
      ∷ fp_reg "fsw" (pos 66) "swd"
      ∷ fp_reg "ftw" (negsuc 0) "ftw"
      ∷ fp_reg "fop" (negsuc 0) "fop"
      ∷ fp_reg "frip" (negsuc 0) "rip"
      ∷ fp_reg "frdp" (negsuc 0) "rdp"
      ∷ fp_reg "mxcsr" (pos 64) "mxcsr"
      ∷ fp_reg "mxcsrmask" (negsuc 0) "mxcr_mask"
      ∷ fp_st "st0" 0
      ∷ fp_st "st1" 1
      ∷ fp_st "st2" 2
      ∷ fp_st "st3" 3
      ∷ fp_st "st4" 4
      ∷ fp_st "st5" 5
      ∷ fp_st "st6" 6
      ∷ fp_st "st7" 7
      ∷ fp_mm "mm0" 0
      ∷ fp_mm "mm1" 1
      ∷ fp_mm "mm2" 2
      ∷ fp_mm "mm3" 3
      ∷ fp_mm "mm4" 4
      ∷ fp_mm "mm5" 5
      ∷ fp_mm "mm6" 6
      ∷ fp_mm "mm7" 7
      ∷ fp_xmm "xmm0" 0
      ∷ fp_xmm "xmm1" 1
      ∷ fp_xmm "xmm2" 2
      ∷ fp_xmm "xmm3" 3
      ∷ fp_xmm "xmm4" 4
      ∷ fp_xmm "xmm5" 5
      ∷ fp_xmm "xmm6" 6
      ∷ fp_xmm "xmm7" 7
      ∷ fp_xmm "xmm8" 8
      ∷ fp_xmm "xmm9" 9
      ∷ fp_xmm "xmm10" 10
      ∷ fp_xmm "xmm11" 11
      ∷ fp_xmm "xmm12" 12
      ∷ fp_xmm "xmm13" 13
      ∷ fp_xmm "xmm14" 14
      ∷ fp_xmm "xmm15" 15
      ∷ []

  -- The debug registers.
  unfoldable pub debugging_registers : List RegisterInfo
  debugging_registers =
      debug_reg "dr0" 0
      ∷ debug_reg "dr1" 1
      ∷ debug_reg "dr2" 2
      ∷ debug_reg "dr3" 3
      ∷ debug_reg "dr4" 4
      ∷ debug_reg "dr5" 5
      ∷ debug_reg "dr6" 6
      ∷ debug_reg "dr7" 7
      ∷ []

  -- gRegisterInfos
  unfoldable pub register_infos : List RegisterInfo
  unfolding general_registers floating_registers debugging_registers
  register_infos = number_from 0 (general_registers ++ (floating_registers ++ debugging_registers))

  unfoldable pub register_info_by_id : ℕ → Run RegisterInfo
  unfolding register_info_by register_infos
  register_info_by_id id = register_info_by (λ r. r.id == id) register_infos

  unfoldable pub register_info_by_name : List ℕ → Run RegisterInfo
  unfolding register_info_by register_infos
  register_info_by_name name = register_info_by (λ r. text_eq (codes r.name) name) register_infos

  unfoldable pub register_info_by_dwarf_id : ℤ → Run RegisterInfo
  unfolding register_info_by register_infos
  register_info_by_dwarf_id dwarf_id =
      register_info_by (λ r. r.dwarf_id ==ℤ dwarf_id) register_infos

-- The enumerators that src/process.cpp names.
abbrev pub id_rax : ℕ
id_rax = 0

abbrev pub id_rdx : ℕ
id_rdx = 1

abbrev pub id_rsi : ℕ
id_rsi = 4

abbrev pub id_rdi : ℕ
id_rdi = 5

abbrev pub id_r8 : ℕ
id_r8 = 8

abbrev pub id_r9 : ℕ
id_r9 = 9

abbrev pub id_r10 : ℕ
id_r10 = 10

abbrev pub id_rip : ℕ
id_rip = 16

abbrev pub id_orig_rax : ℕ
id_orig_rax = 24

abbrev pub id_dr0 : ℕ
id_dr0 = 117

abbrev pub id_dr6 : ℕ
id_dr6 = 123

abbrev pub id_dr7 : ℕ
id_dr7 = 124
