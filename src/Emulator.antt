-- ===== src/Emulator.antt =====
-- The emulator of the 45GS02 in src/tools/hyppotest.c.
pub mod State
pub mod Memory
pub mod Addressing
pub mod Dma
pub mod Alu
pub mod Stack
pub mod Instructions
pub mod Execute
pub mod Run
pub mod Invariant
pub mod Rig
pub mod Describe
pub mod Disassemble
mod Tests
