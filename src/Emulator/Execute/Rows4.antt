-- ===== src/Emulator/Execute/Rows4.antt =====
-- The cases 0x40 to 0x7f of the `switch` in `execute_instruction` of src/tools/hyppotest.c, in the
-- order of the source.
use mega65_core.Prelude.{true, false, not, List, [], ◌∷◌}
use mega65_core.Emulator.Memory.{DmaController}
use mega65_core.Emulator.Addressing.{
  addr_abs, addr_zp, addr_zpx, addr_izpy, addr_izpx, addr_deref16, addr_izpz, addr_absx, addr_absy,
  addr_iabsx,
}
use mega65_core.Emulator.Instructions.Moves.{Register, transfer, transfer_quietly, pull, save, push}
use mega65_core.Emulator.Instructions.Logic.{
  eor, eor_immediate, adc_memory, adc_immediate, change_flag, rmb,
}
use mega65_core.Emulator.Instructions.Shifts.{lsr_a, ror_a, lsr, ror}
use mega65_core.Emulator.Instructions.Flow.{branch, branch_on_bit, jmp, rts, rti, map}
use mega65_core.Emulator.Execute.Switch.{Case, on}

module _ ⦃dma : DmaController⦄ where
  -- Opcodes 0x40 to 0x4f.
  unfoldable pub row_4 : List Case
  row_4 =
      on 0x40 rti
      ∷ on 0x41 (eor 2 addr_izpx)
      ∷ on 0x45 (eor 2 addr_zp)
      ∷ on 0x46 (lsr 2 addr_zp)
      ∷ on 0x47 (rmb 4 addr_zp)
      ∷ on 0x48 (push Register.a)
      ∷ on 0x49 eor_immediate
      ∷ on 0x4a lsr_a
      ∷ on 0x4b (transfer Register.a Register.z)
      ∷ on 0x4c (jmp addr_abs)
      ∷ on 0x4d (eor 3 addr_abs)
      ∷ on 0x4e (lsr 3 addr_abs)
      ∷ on 0x4f (branch_on_bit 4 0)
      ∷ []

  -- Opcodes 0x50 to 0x5f.
  unfoldable pub row_5 : List Case
  row_5 =
      on 0x50 (branch (λ r. not r.flag_v))
      ∷ on 0x51 (eor 2 addr_izpy)
      ∷ on 0x52 (eor 2 addr_izpz)
      ∷ on 0x55 (eor 2 addr_zpx)
      ∷ on 0x56 (lsr 2 addr_zpx)
      ∷ on 0x57 (rmb 5 addr_zp)
      ∷ on 0x58 (change_flag (λ r. record r { flag_i = false }))
      ∷ on 0x59 (eor 3 addr_absy)
      ∷ on 0x5a (push Register.y)
      ∷ on 0x5b (transfer_quietly Register.a Register.b)
      ∷ on 0x5c map
      ∷ on 0x5d (eor 3 addr_absx)
      ∷ on 0x5e (lsr 3 addr_absx)
      ∷ on 0x5f (branch_on_bit 5 0)
      ∷ []

  -- Opcodes 0x60 to 0x6f.
  unfoldable pub row_6 : List Case
  row_6 =
      on 0x60 rts
      ∷ on 0x61 (adc_memory 2 addr_izpx)
      ∷ on 0x64 (save Register.z 2 addr_zp)
      ∷ on 0x65 (adc_memory 2 addr_zp)
      ∷ on 0x66 (ror 2 addr_zp)
      ∷ on 0x67 (rmb 6 addr_zp)
      ∷ on 0x68 (pull Register.a)
      ∷ on 0x69 adc_immediate
      ∷ on 0x6a ror_a
      ∷ on 0x6b (transfer Register.z Register.a)
      ∷ on 0x6c (jmp addr_deref16)
      ∷ on 0x6d (adc_memory 3 addr_abs)
      ∷ on 0x6e (ror 3 addr_abs)
      ∷ on 0x6f (branch_on_bit 6 0)
      ∷ []

  -- Opcodes 0x70 to 0x7f.
  unfoldable pub row_7 : List Case
  row_7 =
      on 0x70 (branch (λ r. r.flag_v))
      ∷ on 0x71 (adc_memory 2 addr_izpy)
      ∷ on 0x72 (adc_memory 2 addr_izpz)
      ∷ on 0x74 (save Register.z 2 addr_zpx)
      ∷ on 0x75 (adc_memory 2 addr_zpx)
      ∷ on 0x76 (ror 2 addr_zpx)
      ∷ on 0x77 (rmb 7 addr_zp)
      ∷ on 0x78 (change_flag (λ r. record r { flag_i = true }))
      ∷ on 0x79 (adc_memory 3 addr_absy)
      ∷ on 0x7a (pull Register.y)
      ∷ on 0x7b (transfer Register.b Register.a)
      ∷ on 0x7c (jmp addr_iabsx)
      ∷ on 0x7d (adc_memory 3 addr_absx)
      ∷ on 0x7e (ror 3 addr_absx)
      ∷ on 0x7f (branch_on_bit 7 0)
      ∷ []
