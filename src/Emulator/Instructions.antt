-- ===== src/Emulator/Instructions.antt =====
-- The bodies of the cases of `execute_instruction` in src/tools/hyppotest.c. The cases of a mnemonic
-- differ in the addressing mode, the length, the register or the bit, which are parameters here.
-- `v` is an `int` there; `byte` stands where it becomes an `unsigned char`.
pub mod Moves
pub mod Logic
pub mod Shifts
pub mod Flow
pub mod Laws
pub mod Digits
pub mod Subroutines
pub use Moves.*
pub use Logic.*
pub use Shifts.*
pub use Flow.*
