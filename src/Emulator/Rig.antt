-- ===== src/Emulator/Rig.antt =====
-- The test rig around the emulator of src/tools/hyppotest.c: the expected state, the call of a
-- routine, the comparison afterwards, and the reset before a test.
pub mod Compare
pub mod Registers
pub mod Expect
pub mod Calls
pub mod Faults
pub mod Init
mod Tests
use mega65_core.Prelude.{ℕ}
use mega65_core.Emulator.State.{Regs, Machine}

-- `chipram_expected` and the other expected memories. Of `cpu_expected` only the registers are read.
pub record Expected : Type 0 where
  pub chipram : ℕ → ℕ
  pub hypporam : ℕ → ℕ
  pub colourram : ℕ → ℕ
  pub ffdram : ℕ → ℕ
  pub regs : Regs

pub record Rig : Type 0 where
  pub machine : Machine
  pub expected : Expected
