-- ===== src/Emulator/Execute/Rows8.antt =====
-- The cases 0x80 to 0xbf of the `switch` in `execute_instruction` of src/tools/hyppotest.c, in the
-- order of the source.
use mega65_core.Prelude.{true, false, not, List, [], ◌∷◌}
use mega65_core.Emulator.Memory.{DmaController}
use mega65_core.Emulator.Addressing.{
  addr_abs, addr_zp, addr_zpx, addr_zpy, addr_izpy, addr_izpx, addr_izpz, addr_absx, addr_absy,
  operand16,
}
use mega65_core.Emulator.Instructions.Moves.{
  Register, load, load_indirect, load_immediate, transfer, transfer_quietly, save, save_indirect,
}
use mega65_core.Emulator.Instructions.Logic.{bit_immediate, decrement, change_flag, smb}
use mega65_core.Emulator.Instructions.Flow.{
  branch, long_branch, branch_on_bit, low_operand, save_z_indirect,
}
use mega65_core.Emulator.Execute.Switch.{Case, on}

module _ ⦃dma : DmaController⦄ where
  -- Opcodes 0x80 to 0x8f.
  unfoldable pub row_8 : List Case
  row_8 =
      on 0x80 (branch (λ r. true))
      ∷ on 0x81 (save Register.a 2 addr_izpx)
      ∷ on 0x83 (long_branch (λ r. true) 2 low_operand)
      ∷ on 0x84 (save Register.y 2 addr_zp)
      ∷ on 0x85 (save Register.a 2 addr_zp)
      ∷ on 0x86 (save Register.x 2 addr_zp)
      ∷ on 0x87 (smb 0 addr_zp)
      ∷ on 0x88 (decrement Register.y)
      ∷ on 0x89 bit_immediate
      ∷ on 0x8a (transfer Register.x Register.a)
      ∷ on 0x8c (save Register.y 3 addr_abs)
      ∷ on 0x8d (save Register.a 3 addr_abs)
      ∷ on 0x8e (save Register.x 3 addr_abs)
      ∷ on 0x8f (branch_on_bit 0 1)
      ∷ []

  -- Opcodes 0x90 to 0x9f.
  unfoldable pub row_9 : List Case
  row_9 =
      on 0x90 (branch (λ r. not r.flag_c))
      ∷ on 0x91 (save_indirect addr_izpy)
      ∷ (0x92, save_z_indirect)
      ∷ on 0x93 (long_branch (λ r. not r.flag_c) 3 operand16)
      ∷ on 0x94 (save Register.y 2 addr_zpx)
      ∷ on 0x95 (save Register.a 2 addr_zpx)
      ∷ on 0x96 (save Register.x 2 addr_zpy)
      ∷ on 0x97 (smb 1 addr_zp)
      ∷ on 0x98 (transfer Register.y Register.a)
      ∷ on 0x99 (save Register.a 3 addr_absy)
      ∷ on 0x9a (transfer_quietly Register.x Register.spl)
      ∷ on 0x9c (save Register.z 3 addr_abs)
      ∷ on 0x9d (save Register.a 3 addr_absx)
      ∷ on 0x9e (save Register.z 3 addr_absx)
      ∷ on 0x9f (branch_on_bit 1 1)
      ∷ []

  -- Opcodes 0xa0 to 0xaf.
  unfoldable pub row_a : List Case
  row_a =
      on 0xa0 (load_immediate Register.y)
      ∷ on 0xa1 (load_indirect addr_izpx)
      ∷ on 0xa2 (load_immediate Register.x)
      ∷ on 0xa3 (load_immediate Register.z)
      ∷ on 0xa4 (load Register.y 2 addr_zp)
      ∷ on 0xa5 (load Register.a 2 addr_zp)
      ∷ on 0xa6 (load Register.x 2 addr_zp)
      ∷ on 0xa7 (smb 2 addr_zp)
      ∷ on 0xa8 (transfer Register.a Register.y)
      ∷ on 0xa9 (load_immediate Register.a)
      ∷ on 0xaa (transfer Register.a Register.x)
      ∷ on 0xac (load Register.y 3 addr_abs)
      ∷ on 0xad (load Register.a 3 addr_abs)
      ∷ on 0xae (load Register.x 3 addr_abs)
      ∷ on 0xaf (branch_on_bit 2 1)
      ∷ []

  -- Opcodes 0xb0 to 0xbf.
  unfoldable pub row_b : List Case
  row_b =
      on 0xb0 (branch (λ r. r.flag_c))
      ∷ on 0xb1 (load_indirect addr_izpy)
      ∷ on 0xb2 (load_indirect addr_izpz)
      ∷ on 0xb4 (load Register.y 2 addr_zpx)
      ∷ on 0xb5 (load Register.a 2 addr_zpx)
      ∷ on 0xb6 (load Register.x 2 addr_zpy)
      ∷ on 0xb7 (smb 3 addr_zp)
      ∷ on 0xb8 (change_flag (λ r. record r { flag_v = false }))
      ∷ on 0xb9 (load Register.a 3 addr_absy)
      ∷ on 0xba (transfer Register.spl Register.x)
      ∷ on 0xbc (load Register.y 3 addr_absx)
      ∷ on 0xbd (load Register.a 3 addr_absx)
      ∷ on 0xbe (load Register.x 3 addr_absy)
      ∷ on 0xbf (branch_on_bit 3 1)
      ∷ []
