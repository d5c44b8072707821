-- ===== src/Lib.antt =====
-- A model of libsdb, the library of a native debugger for x64 Linux, and of its command line, and
-- what holds of them.
--
-- The program: an sdb::Process drives a traced process through ptrace. It reads and writes the
-- process's memory and registers, plants software breakpoints (an int3 byte in memory) and hardware
-- stop points (the debug registers), resumes and steps the process, and says why it stopped. An
-- sdb::Elf maps an ELF file and finds its sections and symbols, and an sdb::Dwarf reads the debug
-- information of the mapped file: abbreviation tables, compile units, entries with their attributes,
-- range lists, and an index of functions. The command line splits a line into words, parses numbers
-- and vectors, and calls these.
--
-- The files:
--   Common       numbers, lists, bits, byte strings, texts and results that the parts share
--   Address      include/libsdb/types.hpp: 64-bit addresses that wrap
--   Stoppoints   include/libsdb/stoppoint_collection.hpp: collections of stop points
--   Kernel       the kernel's side of ptrace, process_vm_readv and waitpid, as parameters
--   Registers    include/libsdb/register_info.hpp, detail/registers.inc and src/registers.cpp
--   Parse        include/libsdb/parse.hpp: numbers and byte vectors from text
--   Launch       how a process starts and ends: src/process.cpp and src/target.cpp
--   Process      src/process.cpp, src/breakpoint_site.cpp and src/watchpoint.cpp
--   Dwarf        src/dwarf.cpp and include/libsdb/dwarf.hpp
--   Mapping      the mapping that src/elf.cpp asks for
--   Elf          src/elf.cpp and src/types.cpp, and the load bias of src/target.cpp
--   Disassembler src/disassembler.cpp
--   Cli          tools/sdb.cpp and src/syscalls.cpp
--   Tests        the theorems at concrete inputs
--
-- The state of a process is the record Process.State.Process: the kernel's side of it, of a type
-- that is a parameter, the copy of the user area, the collections, the catch policy and the two
-- counters of ids. An operation takes a process to an Outcome: a value and a process, an exception
-- with the process that it leaves, an abort, or undefined behaviour. An object that the source
-- refers to by reference is an index into its collection. The memory of the kernel's side is
-- described by MemoryLaws, what the manual pages of ptrace and process_vm_readv promise. The state of
-- the command line is a Session: a process, and the list of what has been printed, as values.
--
-- The readers of Elf and Dwarf work on the mapping of a file, its bytes and the zeros that fill its
-- last page: a pointer or a cursor is an offset into it, and a read past it is undefined. Their results are of the type Run: a value, an
-- exception, or undefined behaviour. A text is the list of its characters. Parameters stand for the
-- demangler and what the standard library leaves open of an unordered_multimap, for Zydis (a decoder of one instruction), for the parser of floating point numbers and
-- for the table of system calls.
--
-- Bounds and fuel. Addresses and register values are numbers below 2 ^ 64 and wrap where the source
-- does. Loops of the readers run on as much fuel as the file has bytes, and one more: every round
-- reads a byte at least, except that ParseCompileUnits does not end at a unit whose size wraps to 0.
-- ReadMemory runs on as many rounds as bytes are asked for, and WriteMemory on as many as bytes are
-- given: every round takes one at least. ParseVector runs on as many rounds as there are characters,
-- and takes four in each. The fuel of WaitOnSignal bounds the number of system calls that are passed
-- over in a row, which the traced program decides; each takes three.
--
-- Launching, attaching and ending are functions of a System, the calls that fork, execute, trace and
-- signal; a process that is held is ended where an exception unwinds.
--
-- Not modelled: opening a file, the signal handler and main of the command line, and the
-- file descriptors of the pipe, which are calls of the system.
pub mod Common
pub mod Address
pub mod Stoppoints
pub mod Kernel
pub mod Launch
pub mod Registers
pub mod Parse
pub mod Process
pub mod Dwarf
pub mod Mapping
pub mod Elf
pub mod Disassembler
pub mod Cli
pub mod Tests
