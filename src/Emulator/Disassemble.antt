-- ===== src/Emulator/Disassemble.antt =====
-- `disassemble_instruction` and `show_recent_instructions` of src/tools/hyppotest.c. Operands has the
-- functions for operands, the Texts modules the cases of the `switch`, Listing the rest of
-- `disassemble_instruction`, and Recent the listing of the log. Depth is about whether the
-- disassembler ends, Targets about the addresses that it shows for branches, Opcodes about its
-- cases, and Rows and Runaway about the listing of the log.
pub mod Operands
pub mod Texts0
pub mod Texts4
pub mod Texts8
pub mod Textsc
pub mod Listing
pub mod Depth
pub mod Targets
pub mod Opcodes
pub mod Recent
pub mod Rows
pub mod Runaway
mod Tests
