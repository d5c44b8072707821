-- ===== src/Address.antt =====
-- include/libsdb/types.hpp: addresses are 64-bit and wrap. An ELF object is known by a number.
use building_a_debugger.Common.{
  ℕ, ◌+◌, ◌-◌, ◌%◌, ◌^◌, Bool, true, false, ◌&&◌, ◌≡◌, arith, ◌<◌, ◌==◌, Option, none, some,
}

-- VirtualAddress::operator+ and operator-, and those of FileAddress on the address.
abbrev pub add64 : ℕ → ℕ → ℕ
add64 a offset = (a + offset) % 2 ^ 64

abbrev pub sub64 : ℕ → ℕ → ℕ
sub64 a offset = (a + 2 ^ 64 - offset) % 2 ^ 64

pub record FileAddress : Type 0 where
  pub elf : Option ℕ
  pub addr : ℕ

-- FileAddress{}
abbrev pub null_address : FileAddress
null_address = record { elf = none; addr = 0 }

abbrev pub same_elf : Option ℕ → Option ℕ → Bool
same_elf none none = true
same_elf (some a) (some b) = a == b
same_elf _ _ = false

-- FileAddress::operator==
abbrev pub same_address : FileAddress → FileAddress → Bool
same_address a b = a.addr == b.addr && same_elf a.elf b.elf

pub sub64-add64 : (a b : ℕ) → a < 2 ^ 64 → b < 2 ^ 64 → sub64 (add64 a b) b ≡ a
sub64-add64 a b ha hb = omega arith

pub add64-sub64 : (a b : ℕ) → a < 2 ^ 64 → b < 2 ^ 64 → add64 (sub64 a b) b ≡ a
add64-sub64 a b ha hb = omega arith
