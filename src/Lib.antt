-- ===== src/Lib.antt =====
-- A verification library for two tools of the MEGA65. One is the emulator in `src/tools/hyppotest.c`,
-- the program that runs the tests of the hypervisor. The other is `src/tools/pngprepare/rlepack.c`,
-- which packs tile sets. The emulator emulates the 45GS02 processor with its memory and its banking,
-- logs each instruction, and stops at the errors that a test looks for.
--
-- The parts, the files and the code:
--   * Prelude: the names all modules share, with lemmas on Boolean tests. Prelude.Words has the
--     integer types of C (`% 2 ^ w`) and arrays as functions, Prelude.Bits the binary digits, and
--     Prelude.Printing the numbers that `fprintf` writes.
--   * Emulator.State: `struct regs`, `struct termination_conditions`, `struct cpu`, `struct
--     instruction_log`, the arrays of memory and of blame, and the log. `Machine` holds all of it, and
--     a function of the program that changes state is in the monad `M` over `Machine`.
--   * Emulator.Memory: `addr_to_28bit` (MAP and the Commodore 64 banks), `read_memory28`, `read_memory`,
--     `memory_blame`, `write_mem28`, `write_mem16`. The range tests that three of these repeat are
--     `cell_of`, and its result `Cell` names the memory and the index.
--   * Emulator.Addressing: `rel8_delta`, `rel16_delta` and `addr_abs` to `addr_iabsx`.
--   * Emulator.Alu: `update_nz`, `update_bit_flags`, `update_cmp_flags`, `adc` and `sbc`.
--   * Emulator.Stack: `stack_pop_ext`, `stack_pop` and `stack_push`.
--   * Emulator.Instructions: the bodies of the cases of `execute_instruction`. Cases whose bodies
--     agree but for the register, the length or the addressing mode share a handler. Laws,
--     Digits and Subroutines are about what they do to the registers, the bits of the accumulator,
--     and JSR with RTS.
--   * Emulator.Execute: `execute_instruction`. Its `switch` is a list of cases, a row of sixteen
--     opcodes each, in the order of the source where a row has them in order; an opcode in no row
--     is unimplemented.
--   * Emulator.Run: `identical_cpustates`, `cpu_step` and `cpu_run`.
--   * Emulator.Invariant: registers, memory and log within their C types, from the accesses to memory
--     over the addressing modes and the handlers to the whole `switch`.
--   * Emulator.Dma: `do_dma`. Dma.Options has its variables and the options, Dma.DmaList the list,
--     Dma.Moves the steps of the source and the destination, which the source writes out twice for
--     lines, and Dma.SymbolTable the symbols; Dma.Blocks, Dma.Memory, Dma.Lines and Dma.Bytes are about
--     blocks, whole jobs, lines, and the bytes that any job leaves.
--   * Emulator.Rig: what stands around a run: `cpu_call_routine`, `cpu_log_reset` and
--     `cpu_stash_ram` (Rig.Calls), `machine_init` (Rig.Init), `compare_ram_contents`,
--     `compare_register_contents` and `ignore_ram_changes` (Rig.Compare), and
--     `write_mem_expected28` (Rig.Expect).
--   * Emulator.Describe: `describe_address` and `describe_address_label28`, which name an address by a
--     symbol, with which symbol that is in Describe.Nearest and Describe.Exact.
--   * Emulator.Disassemble: `disassemble_instruction` and `show_recent_instructions`.
--     Disassemble.Operands has the functions for operands, the four modules Texts the cases of the
--     `switch`, Listing the functions that go on to the instructions an entry blames, and Recent the
--     listing of the log. Depth, Targets and Opcodes are about the disassembly of an instruction,
--     Rows and Runaway about the listing.
--   * Emulator.Tests and the modules Tests of Dma, Rig, Describe, Disassemble and RlePack: small
--     inputs, and the theorems applied to them.
--   * RlePack: `main` of `src/tools/pngprepare/rlepack.c`. RlePack.Table has `dp_item` and the loops that
--     fill `dp_list`, RlePack.Output the queue of tokens, the file and its verification. RlePack.Token
--     is the format by itself: tokens, what they stand for, and their size. The modules below RlePack
--     are about what a loop does to the table (Improve, Ends, Kinds), what the table holds (Best), and
--     what is written and unpacked from it (Writing, Holding, Unpacking, Verifying, Total).
--
-- How they interact: `cpu_run` repeats `cpu_step`, which adds an entry to the log, calls
-- `execute_instruction` on it and then compares it with the latest entry at the new program counter.
-- An instruction reaches memory through an addressing mode and `read_memory` or `write_mem16`,
-- both of which ask `addr_to_28bit`. A write to one of two registers of the I/O area starts a DMA
-- job, whose writes go through `write_mem28` again. A test calls `machine_init`, sets up memory and
-- what it expects, calls routines by `cpu_call_routine`, and compares.
--
-- How the model stands to the code:
--   * An `unsigned char`, an `unsigned short` and an `unsigned int` are natural numbers below 2 ^ 8,
--     2 ^ 16 and 2 ^ 32, which is an invariant and not a type. Each assignment that can wrap around
--     has its `%`. Bit fields are Booleans.
--   * An array is a total function. The program counter is an `unsigned int`, and the model does not
--     say what `breakpoints` and `lastataddr` hold past 65535, where the source leaves the array. A
--     write past the four elements of `pop_blame`, whose index is not initialised, is noted in the
--     entry (`overrun`), and the step is `crashed`.
--   * Pointers to log entries are numbers, in a heap that maps them to entries. Reading through NULL or
--     through a pointer to a freed entry is the outcome `crashed`. What `malloc` returns is the field
--     `fresh` of `Settings`, since `cpu_step` initialises only some fields of an entry.
--   * The globals `cpu`, the memories and the log are one state, which is passed along. Functions that
--     take `cpu` as a pointer are only called with the address of the global.
--   * `cpu_run` is a loop on fuel, and runs with one more than MAX_LOG_LENGTH. That is enough, since
--     a round that goes on has added an entry, and the loop stops once the log is full.
--   * `fate`, a field of the bus, says how far the model follows the program. `addr_to_28bit`,
--     `write_mem28`, `cpu_step`, `cpu_run` and `cpu_call_routine` list the latest instructions after
--     an error, which changes no other state and may not end: such a call leaves `lists`, and the
--     states after it are those of a program whose listing has returned. The listing itself is in
--     Disassemble. The listing before a DMA job, which `log_dma` asks for, is left out.
--   * `write_mem28` and `do_dma` call each other. The memory functions have the controller as an
--     interface, `DmaController`, and Dma.Bytes.controller makes one of `do_dma`, for jobs that start
--     jobs up to a depth and with fuel for the chain of jobs and the options of each. A job without
--     options and without a next job needs fuel 1. A job that needs more fuel, or starts jobs to a
--     greater depth, such as one that starts itself, leaves the fate `unfinished`, and a division by
--     zero `crashed`; the step then ends with that outcome, and with it the run.
--   * The array `raw` of the packer is a function, which says nothing of the indices from `raw_size` on,
--     and pointers into it are indices. A loop over `end` has as many rounds as its test lets through
--     at most, and one more: 128 or 256. The trace has a round for each byte, which suffices since a
--     parent is before its item, and the verification two more than bytes.
--   * `disassemble_instruction` calls itself for the instructions that an entry blames, and
--     `show_recent_instructions` calls itself through `addr_to_28bit`, which lists the latest entries
--     for an address above $FFFF. Both have a depth of calls, and `too_deep` stands for more. What
--     they print is a value, text as a list of codes. A listing inside a row of a listing adds no lines
--     to it, but runs out of depth with it.
--   * The steps of `do_dma` on addresses are modulo 2 ^ 64. `ignore_ram_changes` is `none` where its
--     `int` would overflow.
--
-- Not modelled: the messages other than the listing of the log and the names of addresses, since they
-- change no state, the opening of files, and the memory of the names of symbols. The breakpoints are
-- fixed for a run, so that `machine_init` does not clear them. The test language, the reading of
-- symbols, and screenshots are outside, as are the other tools, the VHDL, the assembler sources and
-- the test programs of the repository.
pub mod Prelude
pub mod Emulator
pub mod RlePack
