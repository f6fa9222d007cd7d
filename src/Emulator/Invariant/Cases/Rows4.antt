-- ===== src/Emulator/Invariant/Cases/Rows4.antt =====
-- The cases 0x40 to 0x7f of the `switch` in src/tools/hyppotest.c keep the invariant, in order.
use mega65_core.Prelude.{arith}
use mega65_core.Emulator.State.{Trace}
use mega65_core.Emulator.Memory.{DmaController}
use mega65_core.Emulator.Addressing.{
  addr_abs, addr_zp, addr_zpx, addr_izpy, addr_izpx, addr_deref16, addr_izpz, addr_absx, addr_absy,
  addr_iabsx,
}
use mega65_core.Emulator.Instructions.Moves.{Register}
use mega65_core.Emulator.Execute.Rows4.{row_4, row_5, row_6, row_7}
use mega65_core.Emulator.Invariant.Parts.{StoresBytes}
use mega65_core.Emulator.Invariant.Modes.{
  addr_abs-IsMode, addr_zp-IsMode, addr_zpx-IsMode, addr_izpy-IsMode, addr_izpx-IsMode,
  addr_deref16-IsMode, addr_izpz-IsMode, addr_absx-IsMode, addr_absy-IsMode, addr_iabsx-IsMode,
}
use mega65_core.Emulator.Invariant.Handlers.{
  transfer-IsValid, transfer_quietly-IsValid, pull-IsValid, save-IsValid, push-IsValid,
}
use mega65_core.Emulator.Invariant.LogicHandlers.{
  eor-IsValid, eor_immediate-IsValid, adc_memory-IsValid, adc_immediate-IsValid,
  change_flag-IsValid, rmb-IsValid, lsr_a-IsValid, ror_a-IsValid, lsr-IsValid, ror-IsValid,
}
use mega65_core.Emulator.Invariant.FlowHandlers.{
  branch-IsValid, branch_on_bit-IsValid, jmp-IsValid, rts-IsValid, rti-IsValid, map-IsValid,
}
use mega65_core.Emulator.Invariant.AllKeep.{AllKeep, none_left, ◌⊳◌}

module _ ⦃dma : DmaController⦄ (stores : StoresBytes dma) where
  module _ (t : Trace) where
    pub row_4-keeps : AllKeep t row_4
    unfolding row_4
    row_4-keeps =
        rti-IsValid
        ⊳ (eor-IsValid 2 addr_izpx addr_izpx-IsMode)
        ⊳ (eor-IsValid 2 addr_zp addr_zp-IsMode)
        ⊳ (lsr-IsValid stores 2 addr_zp addr_zp-IsMode)
        ⊳ (rmb-IsValid stores 4 addr_zp addr_zp-IsMode)
        ⊳ (push-IsValid stores Register.a)
        ⊳ eor_immediate-IsValid
        ⊳ lsr_a-IsValid
        ⊳ (transfer-IsValid Register.a Register.z)
        ⊳ (jmp-IsValid addr_abs addr_abs-IsMode)
        ⊳ (eor-IsValid 3 addr_abs addr_abs-IsMode)
        ⊳ (lsr-IsValid stores 3 addr_abs addr_abs-IsMode)
        ⊳ (branch_on_bit-IsValid 4 0)
        ⊳ none_left

    pub row_5-keeps : AllKeep t row_5
    unfolding row_5
    row_5-keeps =
        (branch-IsValid _)
        ⊳ (eor-IsValid 2 addr_izpy addr_izpy-IsMode)
        ⊳ (eor-IsValid 2 addr_izpz addr_izpz-IsMode)
        ⊳ (eor-IsValid 2 addr_zpx addr_zpx-IsMode)
        ⊳ (lsr-IsValid stores 2 addr_zpx addr_zpx-IsMode)
        ⊳ (rmb-IsValid stores 5 addr_zp addr_zp-IsMode)
        ⊳ (change_flag-IsValid _ (λ r h. ground (arith, h)))
        ⊳ (eor-IsValid 3 addr_absy addr_absy-IsMode)
        ⊳ (push-IsValid stores Register.y)
        ⊳ (transfer_quietly-IsValid Register.a Register.b)
        ⊳ map-IsValid
        ⊳ (eor-IsValid 3 addr_absx addr_absx-IsMode)
        ⊳ (lsr-IsValid stores 3 addr_absx addr_absx-IsMode)
        ⊳ (branch_on_bit-IsValid 5 0)
        ⊳ none_left

    pub row_6-keeps : AllKeep t row_6
    unfolding row_6
    row_6-keeps =
        rts-IsValid
        ⊳ (adc_memory-IsValid 2 addr_izpx addr_izpx-IsMode)
        ⊳ (save-IsValid stores Register.z 2 addr_zp addr_zp-IsMode)
        ⊳ (adc_memory-IsValid 2 addr_zp addr_zp-IsMode)
        ⊳ (ror-IsValid stores 2 addr_zp addr_zp-IsMode)
        ⊳ (rmb-IsValid stores 6 addr_zp addr_zp-IsMode)
        ⊳ (pull-IsValid Register.a)
        ⊳ adc_immediate-IsValid
        ⊳ ror_a-IsValid
        ⊳ (transfer-IsValid Register.z Register.a)
        ⊳ (jmp-IsValid addr_deref16 addr_deref16-IsMode)
        ⊳ (adc_memory-IsValid 3 addr_abs addr_abs-IsMode)
        ⊳ (ror-IsValid stores 3 addr_abs addr_abs-IsMode)
        ⊳ (branch_on_bit-IsValid 6 0)
        ⊳ none_left

    pub row_7-keeps : AllKeep t row_7
    unfolding row_7
    row_7-keeps =
        (branch-IsValid _)
        ⊳ (adc_memory-IsValid 2 addr_izpy addr_izpy-IsMode)
        ⊳ (adc_memory-IsValid 2 addr_izpz addr_izpz-IsMode)
        ⊳ (save-IsValid stores Register.z 2 addr_zpx addr_zpx-IsMode)
        ⊳ (adc_memory-IsValid 2 addr_zpx addr_zpx-IsMode)
        ⊳ (ror-IsValid stores 2 addr_zpx addr_zpx-IsMode)
        ⊳ (rmb-IsValid stores 7 addr_zp addr_zp-IsMode)
        ⊳ (change_flag-IsValid _ (λ r h. ground (arith, h)))
        ⊳ (adc_memory-IsValid 3 addr_absy addr_absy-IsMode)
        ⊳ (pull-IsValid Register.y)
        ⊳ (transfer-IsValid Register.b Register.a)
        ⊳ (jmp-IsValid addr_iabsx addr_iabsx-IsMode)
        ⊳ (adc_memory-IsValid 3 addr_absx addr_absx-IsMode)
        ⊳ (ror-IsValid stores 3 addr_absx addr_absx-IsMode)
        ⊳ (branch_on_bit-IsValid 7 0)
        ⊳ none_left
