-- ===== src/Emulator/Invariant/Cases/Rowsc.antt =====
-- The cases 0xc0 to 0xff of the `switch` in src/tools/hyppotest.c keep the invariant, in order.
use mega65_core.Prelude.{arith}
use mega65_core.Emulator.State.{Trace}
use mega65_core.Emulator.Memory.{DmaController}
use mega65_core.Emulator.Addressing.{
  addr_abs, addr_zp, addr_zpx, addr_izpy, addr_izpx, addr_izpz, addr_absx, addr_absy,
}
use mega65_core.Emulator.Instructions.Moves.{Register}
use mega65_core.Emulator.Execute.Rowsc.{row_c, row_d, row_e, row_f}
use mega65_core.Emulator.Invariant.Parts.{StoresBytes}
use mega65_core.Emulator.Invariant.Modes.{
  addr_abs-IsMode, addr_zp-IsMode, addr_zpx-IsMode, addr_izpy-IsMode, addr_izpx-IsMode,
  addr_izpz-IsMode, addr_absx-IsMode, addr_absy-IsMode,
}
use mega65_core.Emulator.Invariant.Handlers.{pull-IsValid, push-IsValid}
use mega65_core.Emulator.Invariant.LogicHandlers.{
  compare_memory-IsValid, compare_immediate-IsValid, sbc_memory-IsValid, sbc_immediate-IsValid,
  increment-IsValid, decrement-IsValid, change_flag-IsValid, smb-IsValid, dec_memory-IsValid,
  inc_memory-IsValid,
}
use mega65_core.Emulator.Invariant.FlowHandlers.{
  branch-IsValid, long_branch-IsValid, branch_on_bit-IsValid, eom-IsValid,
}
use mega65_core.Emulator.Invariant.AllKeep.{AllKeep, none_left, ◌⊳◌}

module _ ⦃dma : DmaController⦄ (stores : StoresBytes dma) where
  module _ (t : Trace) where
    pub row_c-keeps : AllKeep t row_c
    unfolding row_c
    row_c-keeps =
        (compare_immediate-IsValid Register.y)
        ⊳ (compare_memory-IsValid Register.a 2 addr_izpx addr_izpx-IsMode)
        ⊳ (compare_memory-IsValid Register.y 2 addr_zp addr_zp-IsMode)
        ⊳ (compare_memory-IsValid Register.a 2 addr_zp addr_zp-IsMode)
        ⊳ (dec_memory-IsValid stores 2 addr_zp addr_zp-IsMode)
        ⊳ (smb-IsValid stores 4 addr_zp addr_zp-IsMode)
        ⊳ (increment-IsValid Register.y)
        ⊳ (compare_immediate-IsValid Register.a)
        ⊳ (decrement-IsValid Register.x)
        ⊳ (compare_memory-IsValid Register.y 3 addr_abs addr_abs-IsMode)
        ⊳ (compare_memory-IsValid Register.a 3 addr_abs addr_abs-IsMode)
        ⊳ (dec_memory-IsValid stores 3 addr_abs addr_abs-IsMode)
        ⊳ (branch_on_bit-IsValid 4 1)
        ⊳ none_left

    pub row_d-keeps : AllKeep t row_d
    unfolding row_d
    row_d-keeps =
        (branch-IsValid _)
        ⊳ (compare_memory-IsValid Register.a 2 addr_izpy addr_izpy-IsMode)
        ⊳ (compare_memory-IsValid Register.a 2 addr_izpz addr_izpz-IsMode)
        ⊳ (compare_memory-IsValid Register.a 2 addr_zpx addr_zpx-IsMode)
        ⊳ (dec_memory-IsValid stores 2 addr_zpx addr_zpx-IsMode)
        ⊳ (smb-IsValid stores 5 addr_zp addr_zp-IsMode)
        ⊳ (change_flag-IsValid _ (λ r h. ground (arith, h)))
        ⊳ (compare_memory-IsValid Register.a 3 addr_absy addr_absy-IsMode)
        ⊳ (push-IsValid stores Register.x)
        ⊳ (push-IsValid stores Register.z)
        ⊳ (compare_memory-IsValid Register.a 3 addr_absx addr_absx-IsMode)
        ⊳ (dec_memory-IsValid stores 3 addr_absx addr_absx-IsMode)
        ⊳ (branch_on_bit-IsValid 5 1)
        ⊳ none_left

    pub row_e-keeps : AllKeep t row_e
    unfolding row_e
    row_e-keeps =
        (compare_immediate-IsValid Register.x)
        ⊳ (sbc_memory-IsValid 2 addr_izpx addr_izpx-IsMode)
        ⊳ (compare_memory-IsValid Register.x 2 addr_zp addr_zp-IsMode)
        ⊳ (sbc_memory-IsValid 2 addr_zp addr_zp-IsMode)
        ⊳ (inc_memory-IsValid stores 2 addr_zp addr_zp-IsMode)
        ⊳ (smb-IsValid stores 6 addr_zp addr_zp-IsMode)
        ⊳ (increment-IsValid Register.x)
        ⊳ sbc_immediate-IsValid
        ⊳ eom-IsValid
        ⊳ (compare_memory-IsValid Register.x 3 addr_abs addr_abs-IsMode)
        ⊳ (sbc_memory-IsValid 3 addr_abs addr_abs-IsMode)
        ⊳ (inc_memory-IsValid stores 3 addr_abs addr_abs-IsMode)
        ⊳ (branch_on_bit-IsValid 6 1)
        ⊳ none_left

    pub row_f-keeps : AllKeep t row_f
    unfolding row_f
    row_f-keeps =
        (branch-IsValid _)
        ⊳ (sbc_memory-IsValid 2 addr_izpy addr_izpy-IsMode)
        ⊳ (sbc_memory-IsValid 2 addr_izpz addr_izpz-IsMode)
        ⊳ (long_branch-IsValid _ _ _)
        ⊳ (sbc_memory-IsValid 2 addr_zpx addr_zpx-IsMode)
        ⊳ (inc_memory-IsValid stores 2 addr_zpx addr_zpx-IsMode)
        ⊳ (smb-IsValid stores 7 addr_zp addr_zp-IsMode)
        ⊳ (change_flag-IsValid _ (λ r h. ground (arith, h)))
        ⊳ (sbc_memory-IsValid 3 addr_absy addr_absy-IsMode)
        ⊳ (pull-IsValid Register.x)
        ⊳ (pull-IsValid Register.z)
        ⊳ (sbc_memory-IsValid 3 addr_absx addr_absx-IsMode)
        ⊳ (inc_memory-IsValid stores 3 addr_absx addr_absx-IsMode)
        ⊳ (branch_on_bit-IsValid 7 1)
        ⊳ none_left
