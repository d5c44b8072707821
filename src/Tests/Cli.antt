-- ===== src/Tests/Cli.antt =====
-- Lines of the command line, and what it is given from outside.
use building_a_debugger.Common.{
  ℕ, ◌^◌, ◌≡◌, ◌⊎◌, inl, refl, [], ◌∷◌, none, some, Run, ok, throws, undefined, arith,
}
use building_a_debugger.Common.Text.{codes, text_eq}
use building_a_debugger.Common.Int.{pos}
use building_a_debugger.Parse.{
  to_integral, to_integral_int, from_chars, from_chars_int, from_chars_signed, skip_prefix,
  scan_digits, digit,
}
use building_a_debugger.Registers.Table.{
  RegisterInfo, RegisterFormat, vector, register_info_by_name, register_infos, register_info_by,
  register, RegisterType,
}
use building_a_debugger.Process.State.{done, aborted, unspecified}
use building_a_debugger.Elf.Symbols.{without_symbols}
use building_a_debugger.Disassembler.{Decoder}
use building_a_debugger.Cli.{Session}
use building_a_debugger.Cli.Values.{FloatReader}
use building_a_debugger.Cli.Registers.{handle_register_write}
use building_a_debugger.Cli.Vectors.{handle_register_write-vector}
use building_a_debugger.Cli.Stops.{Tools}
use building_a_debugger.Cli.Loop.{run_line}
use building_a_debugger.Cli.Faults.{
  Faulty, watchpoint_without_id, run_line-Malformed, run_line-unspecified,
}
use building_a_debugger.Tests.Machine.{env, process}

abbrev pub floats : FloatReader
floats = record { read_double = λ text. (none, text); read_long_double = λ text. (none, text) }

-- Every instruction is one byte long, and its text is that byte.
abbrev one_byte : Decoder
one_byte address bytes = elim bytes [ [] ↦ none | b ∷ bs ↦ some (1, b ∷ []) ]

abbrev pub tools : Tools
tools = record {
  decode = one_byte;
  syscalls = (codes "read", pos 0) ∷ [];
  elf =
      without_symbols 0 []
        (record { e_entry = 0; e_shoff = 0; e_shentsize = 0; e_shnum = 0; e_shstrndx = 0 }) [] [];
}

abbrev session : Session (ℕ → ℕ)
session = record { process = process; printed = [] }

abbrev xmm0 : Run RegisterInfo → RegisterInfo
xmm0 (ok info) = info
xmm0 (throws e) = register "" (pos 0) 0 0 RegisterType.gpr RegisterFormat.uint
xmm0 undefined = register "" (pos 0) 0 0 RegisterType.gpr RegisterFormat.uint

found : RegisterInfo
unfolding register_info_by_name
found = xmm0 (register_info_by_name env.layout (codes "xmm0"))

found_there : register_info_by_name env.layout (codes "xmm0") ≡ ok found
unfolding found register_info_by_name register_infos register_info_by text_eq
found_there = refl

found_vector : found.format ≡ vector
unfolding found register_info_by_name register_infos register_info_by text_eq
found_vector = refl

handle_register_write-vector_example :
    (handle_register_write env floats
        (codes "register" ∷ codes "write" ∷ codes "xmm0" ∷ codes "[0x1]" ∷ [])
        session
      ≡ done tt session)
    ⊎ (handle_register_write env floats
          (codes "register" ∷ codes "write" ∷ codes "xmm0" ∷ codes "[0x1]" ∷ [])
          session
        ≡ unspecified)
handle_register_write-vector_example =
    handle_register_write-vector env floats found (codes "register") (codes "write") (codes "xmm0")
      (codes "[0x1]") session found_there found_vector

at_16 : to_integral (2 ^ 64) 16 (codes "0x10") ≡ ok (some 16)
unfolding to_integral from_chars scan_digits digit skip_prefix
at_16 = refl

malformed : building_a_debugger.Parse.Vectors.Malformed b'0' b'x' b'z' b'z'
unfolding digit skip_prefix
malformed = refl

run_line-Malformed_example :
    run_line env tools floats 3 (codes "memory write 0x10 [0xzz]") session ≡ aborted
run_line-Malformed_example =
    run_line-Malformed env tools floats 3 (codes "0x10") 16 b'0' b'x' b'z' b'z' (codes "]") session
      (omega arith) (omega arith) at_16 (λ e. absurd (omega arith)) malformed

not_a_number : to_integral_int 10 (codes "x") ≡ ok none
unfolding to_integral_int from_chars_int from_chars_signed digit skip_prefix
not_a_number = refl

enable_x : Faulty (codes "watchpoint enable x")
enable_x =
    watchpoint_without_id (codes "enable") (codes "x") (inl refl) (omega arith) (λ e. cc)
      not_a_number refl

run_line-unspecified_example :
    run_line env tools floats 3 (codes "watchpoint enable x") session ≡ unspecified
run_line-unspecified_example =
    run_line-unspecified env tools floats 3 (codes "watchpoint enable x") session enable_x
