-- ===== src/Mapping.antt =====
-- The mapping of a file, as the constructor of sdb::Elf in src/elf.cpp asks mmap for.
use building_a_debugger.Common.{ℕ, ◌-◌, ◌%◌, List, ◌++◌, length, zeros}

-- What is left of the last page behind the bytes of a file.
abbrev pub page_rest : List ℕ → ℕ
page_rest contents = (4096 - length contents % 4096) % 4096

-- The mapped memory: the bytes of the file, and zeros up to the end of its last page. Behind that
-- there may be no memory at all.
unfoldable pub map_file : List ℕ → List ℕ
map_file contents = contents ++ zeros (page_rest contents)
