-- ===== src/Emulator/Invariant/Cases/Rows0.antt =====
-- The cases 0x00 to 0x3f of the `switch` in src/tools/hyppotest.c keep the invariant, in order.
use mega65_core.Prelude.{arith}
use mega65_core.Emulator.State.{Trace}
use mega65_core.Emulator.Memory.{DmaController}
use mega65_core.Emulator.Addressing.{
  addr_abs, addr_zp, addr_zpx, addr_izpy, addr_izpx, addr_deref16, addr_izpz, addr_absx, addr_absy,
}
use mega65_core.Emulator.Instructions.Moves.{Register}
use mega65_core.Emulator.Execute.Rows0.{row_0, row_1, row_2, row_3}
use mega65_core.Emulator.Invariant.Parts.{StoresBytes}
use mega65_core.Emulator.Invariant.Modes.{
  addr_abs-IsMode, addr_zp-IsMode, addr_zpx-IsMode, addr_izpy-IsMode, addr_izpx-IsMode,
  addr_deref16-IsMode, addr_izpz-IsMode, addr_absx-IsMode, addr_absy-IsMode,
}
use mega65_core.Emulator.Invariant.Handlers.{transfer_quietly-IsValid, plp-IsValid, php-IsValid}
use mega65_core.Emulator.Invariant.LogicHandlers.{
  ora-IsValid, ora_immediate-IsValid, conjoin-IsValid, conjoin_immediate-IsValid, bit_test-IsValid,
  increment-IsValid, decrement-IsValid, change_flag-IsValid, tsb-IsValid, trb-IsValid, rmb-IsValid,
  asl_a-IsValid, rol_a-IsValid, asl-IsValid, rol-IsValid,
}
use mega65_core.Emulator.Invariant.FlowHandlers.{
  branch-IsValid, long_branch-IsValid, branch_on_bit-IsValid, brk-IsValid, jsr-IsValid,
}
use mega65_core.Emulator.Invariant.AllKeep.{AllKeep, none_left, ◌⊳◌}

module _ ⦃dma : DmaController⦄ (stores : StoresBytes dma) where
  module _ (t : Trace) where
    pub row_0-keeps : AllKeep t row_0
    unfolding row_0
    row_0-keeps =
        brk-IsValid
        ⊳ (ora-IsValid 2 addr_izpx addr_izpx-IsMode)
        ⊳ (change_flag-IsValid _ (λ r h. ground (arith, h)))
        ⊳ (tsb-IsValid stores 2 addr_zp addr_zp-IsMode)
        ⊳ (ora-IsValid 2 addr_zp addr_zp-IsMode)
        ⊳ (asl-IsValid stores 2 addr_zp addr_zp-IsMode)
        ⊳ (rmb-IsValid stores 0 addr_zp addr_zp-IsMode)
        ⊳ (php-IsValid stores)
        ⊳ ora_immediate-IsValid
        ⊳ asl_a-IsValid
        ⊳ (tsb-IsValid stores 3 addr_abs addr_abs-IsMode)
        ⊳ (ora-IsValid 3 addr_abs addr_abs-IsMode)
        ⊳ (asl-IsValid stores 3 addr_abs addr_abs-IsMode)
        ⊳ (branch_on_bit-IsValid 0 0)
        ⊳ none_left

    pub row_1-keeps : AllKeep t row_1
    unfolding row_1
    row_1-keeps =
        (branch-IsValid _)
        ⊳ (ora-IsValid 2 addr_izpy addr_izpy-IsMode)
        ⊳ (ora-IsValid 2 addr_izpz addr_izpz-IsMode)
        ⊳ (long_branch-IsValid _ _ _)
        ⊳ (trb-IsValid stores 2 addr_zp addr_zp-IsMode)
        ⊳ (ora-IsValid 2 addr_zpx addr_zpx-IsMode)
        ⊳ (asl-IsValid stores 2 addr_zpx addr_zpx-IsMode)
        ⊳ (rmb-IsValid stores 1 addr_zp addr_zp-IsMode)
        ⊳ (change_flag-IsValid _ (λ r h. ground (arith, h)))
        ⊳ (ora-IsValid 3 addr_absy addr_absy-IsMode)
        ⊳ (increment-IsValid Register.a)
        ⊳ (increment-IsValid Register.z)
        ⊳ (ora-IsValid 3 addr_absx addr_absx-IsMode)
        ⊳ (asl-IsValid stores 3 addr_absx addr_absx-IsMode)
        ⊳ (trb-IsValid stores 3 addr_abs addr_abs-IsMode)
        ⊳ (branch_on_bit-IsValid 1 0)
        ⊳ none_left

    pub row_2-keeps : AllKeep t row_2
    unfolding row_2
    row_2-keeps =
        (jsr-IsValid stores addr_abs addr_abs-IsMode)
        ⊳ (conjoin-IsValid 2 addr_izpx addr_izpx-IsMode)
        ⊳ (jsr-IsValid stores addr_deref16 addr_deref16-IsMode)
        ⊳ (bit_test-IsValid 2 addr_zp addr_zp-IsMode)
        ⊳ (conjoin-IsValid 2 addr_zp addr_zp-IsMode)
        ⊳ (rol-IsValid stores 2 addr_zp addr_zp-IsMode)
        ⊳ (rmb-IsValid stores 2 addr_zp addr_zp-IsMode)
        ⊳ plp-IsValid
        ⊳ conjoin_immediate-IsValid
        ⊳ rol_a-IsValid
        ⊳ (transfer_quietly-IsValid Register.y Register.sph)
        ⊳ (bit_test-IsValid 3 addr_abs addr_abs-IsMode)
        ⊳ (conjoin-IsValid 3 addr_abs addr_abs-IsMode)
        ⊳ (rol-IsValid stores 3 addr_abs addr_abs-IsMode)
        ⊳ (branch_on_bit-IsValid 2 0)
        ⊳ none_left

    pub row_3-keeps : AllKeep t row_3
    unfolding row_3
    row_3-keeps =
        (branch-IsValid _)
        ⊳ (conjoin-IsValid 2 addr_izpy addr_izpy-IsMode)
        ⊳ (conjoin-IsValid 2 addr_izpz addr_izpz-IsMode)
        ⊳ (long_branch-IsValid _ _ _)
        ⊳ (bit_test-IsValid 2 addr_zpx addr_zpx-IsMode)
        ⊳ (conjoin-IsValid 2 addr_zpx addr_zpx-IsMode)
        ⊳ (rol-IsValid stores 2 addr_zpx addr_zpx-IsMode)
        ⊳ (rmb-IsValid stores 3 addr_zp addr_zp-IsMode)
        ⊳ (change_flag-IsValid _ (λ r h. ground (arith, h)))
        ⊳ (conjoin-IsValid 3 addr_absy addr_absy-IsMode)
        ⊳ (decrement-IsValid Register.a)
        ⊳ (bit_test-IsValid 3 addr_absx addr_absx-IsMode)
        ⊳ (conjoin-IsValid 3 addr_absx addr_absx-IsMode)
        ⊳ (rol-IsValid stores 3 addr_absx addr_absx-IsMode)
        ⊳ (branch_on_bit-IsValid 3 0)
        ⊳ none_left
