-- ===== src/Emulator/Execute/Rowsc.antt =====
-- The cases 0xc0 to 0xff of the `switch` in `execute_instruction` of src/tools/hyppotest.c, in the
-- order of the source.
use mega65_core.Prelude.{true, false, not, List, [], ◌∷◌}
use mega65_core.Emulator.Memory.{DmaController}
use mega65_core.Emulator.Addressing.{
  addr_abs, addr_zp, addr_zpx, addr_izpy, addr_izpx, addr_izpz, addr_absx, addr_absy,
}
use mega65_core.Emulator.Instructions.Moves.{Register, pull, push}
use mega65_core.Emulator.Instructions.Logic.{
  compare_memory, compare_immediate, sbc_memory, sbc_immediate, increment, decrement, change_flag,
  smb, dec_memory, inc_memory,
}
use mega65_core.Emulator.Instructions.Flow.{branch, long_branch, branch_on_bit, low_operand, eom}
use mega65_core.Emulator.Execute.Switch.{Case, on}

module _ ⦃dma : DmaController⦄ where
  -- Opcodes 0xc0 to 0xcf.
  unfoldable pub row_c : List Case
  row_c =
      on 0xc0 (compare_immediate Register.y)
      ∷ on 0xc1 (compare_memory Register.a 2 addr_izpx)
      ∷ on 0xc4 (compare_memory Register.y 2 addr_zp)
      ∷ on 0xc5 (compare_memory Register.a 2 addr_zp)
      ∷ on 0xc6 (dec_memory 2 addr_zp)
      ∷ on 0xc7 (smb 4 addr_zp)
      ∷ on 0xc8 (increment Register.y)
      ∷ on 0xc9 (compare_immediate Register.a)
      ∷ on 0xca (decrement Register.x)
      ∷ on 0xcc (compare_memory Register.y 3 addr_abs)
      ∷ on 0xcd (compare_memory Register.a 3 addr_abs)
      ∷ on 0xce (dec_memory 3 addr_abs)
      ∷ on 0xcf (branch_on_bit 4 1)
      ∷ []

  -- Opcodes 0xd0 to 0xdf.
  unfoldable pub row_d : List Case
  row_d =
      on 0xd0 (branch (λ r. not r.flag_z))
      ∷ on 0xd1 (compare_memory Register.a 2 addr_izpy)
      ∷ on 0xd2 (compare_memory Register.a 2 addr_izpz)
      ∷ on 0xd5 (compare_memory Register.a 2 addr_zpx)
      ∷ on 0xd6 (dec_memory 2 addr_zpx)
      ∷ on 0xd7 (smb 5 addr_zp)
      ∷ on 0xd8 (change_flag (λ r. record r { flag_d = false }))
      ∷ on 0xd9 (compare_memory Register.a 3 addr_absy)
      ∷ on 0xda (push Register.x)
      ∷ on 0xdb (push Register.z)
      ∷ on 0xdd (compare_memory Register.a 3 addr_absx)
      ∷ on 0xde (dec_memory 3 addr_absx)
      ∷ on 0xdf (branch_on_bit 5 1)
      ∷ []

  -- Opcodes 0xe0 to 0xef.
  unfoldable pub row_e : List Case
  row_e =
      on 0xe0 (compare_immediate Register.x)
      ∷ on 0xe1 (sbc_memory 2 addr_izpx)
      ∷ on 0xe4 (compare_memory Register.x 2 addr_zp)
      ∷ on 0xe5 (sbc_memory 2 addr_zp)
      ∷ on 0xe6 (inc_memory 2 addr_zp)
      ∷ on 0xe7 (smb 6 addr_zp)
      ∷ on 0xe8 (increment Register.x)
      ∷ on 0xe9 sbc_immediate
      ∷ on 0xea eom
      ∷ on 0xec (compare_memory Register.x 3 addr_abs)
      ∷ on 0xed (sbc_memory 3 addr_abs)
      ∷ on 0xee (inc_memory 3 addr_abs)
      ∷ on 0xef (branch_on_bit 6 1)
      ∷ []

  -- Opcodes 0xf0 to 0xff.
  unfoldable pub row_f : List Case
  row_f =
      on 0xf0 (branch (λ r. r.flag_z))
      ∷ on 0xf1 (sbc_memory 2 addr_izpy)
      ∷ on 0xf2 (sbc_memory 2 addr_izpz)
      ∷ on 0xf3 (long_branch (λ r. r.flag_z) 3 low_operand)
      ∷ on 0xf5 (sbc_memory 2 addr_zpx)
      ∷ on 0xf6 (inc_memory 2 addr_zpx)
      ∷ on 0xf7 (smb 7 addr_zp)
      ∷ on 0xf8 (change_flag (λ r. record r { flag_d = true }))
      ∷ on 0xf9 (sbc_memory 3 addr_absy)
      ∷ on 0xfa (pull Register.x)
      ∷ on 0xfb (pull Register.z)
      ∷ on 0xfd (sbc_memory 3 addr_absx)
      ∷ on 0xfe (inc_memory 3 addr_absx)
      ∷ on 0xff (branch_on_bit 7 1)
      ∷ []
