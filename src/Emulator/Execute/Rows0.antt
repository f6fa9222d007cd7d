-- ===== src/Emulator/Execute/Rows0.antt =====
-- The cases 0x00 to 0x3f of the `switch` in `execute_instruction` of src/tools/hyppotest.c, in the
-- order of the source.
use mega65_core.Prelude.{true, false, not, List, [], ◌∷◌}
use mega65_core.Emulator.Memory.{DmaController}
use mega65_core.Emulator.Addressing.{
  addr_abs, addr_zp, addr_zpx, addr_izpy, addr_izpx, addr_deref16, addr_izpz, addr_absx, addr_absy,
}
use mega65_core.Emulator.Instructions.Moves.{Register, transfer_quietly, plp, php}
use mega65_core.Emulator.Instructions.Logic.{
  ora, ora_immediate, conjoin, conjoin_immediate, bit_test, increment, decrement, change_flag, tsb,
  trb, rmb,
}
use mega65_core.Emulator.Instructions.Shifts.{asl_a, rol_a, asl, rol}
use mega65_core.Emulator.Instructions.Flow.{
  branch, long_branch, branch_on_bit, low_operand, brk, jsr,
}
use mega65_core.Emulator.Execute.Switch.{Case, on}

module _ ⦃dma : DmaController⦄ where
  -- Opcodes 0x00 to 0x0f.
  unfoldable pub row_0 : List Case
  row_0 =
      on 0x00 brk
      ∷ on 0x01 (ora 2 addr_izpx)
      ∷ on 0x03 (change_flag (λ r. record r { flag_e = true }))
      ∷ on 0x04 (tsb 2 addr_zp)
      ∷ on 0x05 (ora 2 addr_zp)
      ∷ on 0x06 (asl 2 addr_zp)
      ∷ on 0x07 (rmb 0 addr_zp)
      ∷ on 0x08 php
      ∷ on 0x09 ora_immediate
      ∷ on 0x0a asl_a
      ∷ on 0x0c (tsb 3 addr_abs)
      ∷ on 0x0d (ora 3 addr_abs)
      ∷ on 0x0e (asl 3 addr_abs)
      ∷ on 0x0f (branch_on_bit 0 0)
      ∷ []

  -- Opcodes 0x10 to 0x1f.
  unfoldable pub row_1 : List Case
  row_1 =
      on 0x10 (branch (λ r. not r.flag_n))
      ∷ on 0x11 (ora 2 addr_izpy)
      ∷ on 0x12 (ora 2 addr_izpz)
      ∷ on 0x13 (long_branch (λ r. not r.flag_n) 2 low_operand)
      ∷ on 0x14 (trb 2 addr_zp)
      ∷ on 0x15 (ora 2 addr_zpx)
      ∷ on 0x16 (asl 2 addr_zpx)
      ∷ on 0x17 (rmb 1 addr_zp)
      ∷ on 0x18 (change_flag (λ r. record r { flag_c = false }))
      ∷ on 0x19 (ora 3 addr_absy)
      ∷ on 0x1a (increment Register.a)
      ∷ on 0x1b (increment Register.z)
      ∷ on 0x1d (ora 3 addr_absx)
      ∷ on 0x1e (asl 3 addr_absx)
      ∷ on 0x1c (trb 3 addr_abs)
      ∷ on 0x1f (branch_on_bit 1 0)
      ∷ []

  -- Opcodes 0x20 to 0x2f.
  unfoldable pub row_2 : List Case
  row_2 =
      on 0x20 (jsr addr_abs)
      ∷ on 0x21 (conjoin 2 addr_izpx)
      ∷ on 0x22 (jsr addr_deref16)
      ∷ on 0x24 (bit_test 2 addr_zp)
      ∷ on 0x25 (conjoin 2 addr_zp)
      ∷ on 0x26 (rol 2 addr_zp)
      ∷ on 0x27 (rmb 2 addr_zp)
      ∷ on 0x28 plp
      ∷ on 0x29 conjoin_immediate
      ∷ on 0x2a rol_a
      ∷ on 0x2b (transfer_quietly Register.y Register.sph)
      ∷ on 0x2c (bit_test 3 addr_abs)
      ∷ on 0x2d (conjoin 3 addr_abs)
      ∷ on 0x2e (rol 3 addr_abs)
      ∷ on 0x2f (branch_on_bit 2 0)
      ∷ []

  -- Opcodes 0x30 to 0x3f.
  unfoldable pub row_3 : List Case
  row_3 =
      on 0x30 (branch (λ r. r.flag_n))
      ∷ on 0x31 (conjoin 2 addr_izpy)
      ∷ on 0x32 (conjoin 2 addr_izpz)
      ∷ on 0x33 (long_branch (λ r. r.flag_n) 2 low_operand)
      ∷ on 0x34 (bit_test 2 addr_zpx)
      ∷ on 0x35 (conjoin 2 addr_zpx)
      ∷ on 0x36 (rol 2 addr_zpx)
      ∷ on 0x37 (rmb 3 addr_zp)
      ∷ on 0x38 (change_flag (λ r. record r { flag_c = true }))
      ∷ on 0x39 (conjoin 3 addr_absy)
      ∷ on 0x3a (decrement Register.a)
      ∷ on 0x3c (bit_test 3 addr_absx)
      ∷ on 0x3d (conjoin 3 addr_absx)
      ∷ on 0x3e (rol 3 addr_absx)
      ∷ on 0x3f (branch_on_bit 3 0)
      ∷ []
