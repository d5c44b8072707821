-- ===== src/Dwarf.antt =====
-- include/libsdb/dwarf.hpp, src/dwarf.cpp and include/libsdb/detail/dwarf.h.
pub mod Constants
pub mod Cursor
pub mod Leb
pub mod SignedLeb
pub mod Abbrev
pub mod Unit
pub mod Entry
pub mod Ranges
pub mod Index
