-- ===== src/Dwarf/Constants.antt =====
-- The codes of include/libsdb/detail/dwarf.h that src/dwarf.cpp names.
use Prim.Native.Nat.{ℕ}

abbrev pub dw_tag_inlined_subroutine : ℕ
dw_tag_inlined_subroutine = 0x1d

abbrev pub dw_tag_subprogram : ℕ
dw_tag_subprogram = 0x2e

abbrev pub dw_at_sibling : ℕ
dw_at_sibling = 0x01

abbrev pub dw_at_name : ℕ
dw_at_name = 0x03

abbrev pub dw_at_low_pc : ℕ
dw_at_low_pc = 0x11

abbrev pub dw_at_high_pc : ℕ
dw_at_high_pc = 0x12

abbrev pub dw_at_abstract_origin : ℕ
dw_at_abstract_origin = 0x31

abbrev pub dw_at_specification : ℕ
dw_at_specification = 0x47

abbrev pub dw_at_ranges : ℕ
dw_at_ranges = 0x55

abbrev pub dw_form_addr : ℕ
dw_form_addr = 0x01

abbrev pub dw_form_block2 : ℕ
dw_form_block2 = 0x03

abbrev pub dw_form_block4 : ℕ
dw_form_block4 = 0x04

abbrev pub dw_form_data2 : ℕ
dw_form_data2 = 0x05

abbrev pub dw_form_data4 : ℕ
dw_form_data4 = 0x06

abbrev pub dw_form_data8 : ℕ
dw_form_data8 = 0x07

abbrev pub dw_form_string : ℕ
dw_form_string = 0x08

abbrev pub dw_form_block : ℕ
dw_form_block = 0x09

abbrev pub dw_form_block1 : ℕ
dw_form_block1 = 0x0a

abbrev pub dw_form_data1 : ℕ
dw_form_data1 = 0x0b

abbrev pub dw_form_flag : ℕ
dw_form_flag = 0x0c

abbrev pub dw_form_sdata : ℕ
dw_form_sdata = 0x0d

abbrev pub dw_form_strp : ℕ
dw_form_strp = 0x0e

abbrev pub dw_form_udata : ℕ
dw_form_udata = 0x0f

abbrev pub dw_form_ref_addr : ℕ
dw_form_ref_addr = 0x10

abbrev pub dw_form_ref1 : ℕ
dw_form_ref1 = 0x11

abbrev pub dw_form_ref2 : ℕ
dw_form_ref2 = 0x12

abbrev pub dw_form_ref4 : ℕ
dw_form_ref4 = 0x13

abbrev pub dw_form_ref8 : ℕ
dw_form_ref8 = 0x14

abbrev pub dw_form_ref_udata : ℕ
dw_form_ref_udata = 0x15

abbrev pub dw_form_indirect : ℕ
dw_form_indirect = 0x16

abbrev pub dw_form_sec_offset : ℕ
dw_form_sec_offset = 0x17

abbrev pub dw_form_exprloc : ℕ
dw_form_exprloc = 0x18

abbrev pub dw_form_flag_present : ℕ
dw_form_flag_present = 0x19

abbrev pub dw_form_ref_sig8 : ℕ
dw_form_ref_sig8 = 0x20
