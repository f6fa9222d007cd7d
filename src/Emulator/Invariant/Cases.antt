-- ===== src/Emulator/Invariant/Cases.antt =====
-- All cases of the `switch`, and `execute_instruction` of src/tools/hyppotest.c as a whole.
pub mod Rows0
pub mod Rows4
pub mod Rows8
pub mod Rowsc
