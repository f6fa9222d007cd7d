-- ===== src/Emulator/Invariant.antt =====
-- The invariant of the machine of src/tools/hyppotest.c: every register, memory cell and operand byte
-- is in the range of its C type.
pub mod Parts
pub mod Modes
pub mod Handlers
pub mod LogicHandlers
pub mod FlowHandlers
pub mod AllKeep
pub mod Cases
pub mod Whole
