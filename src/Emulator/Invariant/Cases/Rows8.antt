-- ===== src/Emulator/Invariant/Cases/Rows8.antt =====
-- The cases 0x80 to 0xbf of the `switch` in src/tools/hyppotest.c keep the invariant, in order.
use mega65_core.Prelude.{arith}
use mega65_core.Emulator.State.{Trace}
use mega65_core.Emulator.Memory.{DmaController}
use mega65_core.Emulator.Addressing.{
  addr_abs, addr_zp, addr_zpx, addr_zpy, addr_izpy, addr_izpx, addr_izpz, addr_absx, addr_absy,
}
use mega65_core.Emulator.Instructions.Moves.{Register}
use mega65_core.Emulator.Execute.Rows8.{row_8, row_9, row_a, row_b}
use mega65_core.Emulator.Invariant.Parts.{StoresBytes}
use mega65_core.Emulator.Invariant.Modes.{
  addr_abs-IsMode, addr_zp-IsMode, addr_zpx-IsMode, addr_zpy-IsMode, addr_izpy-IsMode,
  addr_izpx-IsMode, addr_izpz-IsMode, addr_absx-IsMode, addr_absy-IsMode,
}
use mega65_core.Emulator.Invariant.Handlers.{
  load-IsValid, load_indirect-IsValid, load_immediate-IsValid, transfer-IsValid,
  transfer_quietly-IsValid, save-IsValid, save_indirect-IsValid,
}
use mega65_core.Emulator.Invariant.LogicHandlers.{
  bit_immediate-IsValid, decrement-IsValid, change_flag-IsValid, smb-IsValid,
}
use mega65_core.Emulator.Invariant.FlowHandlers.{
  branch-IsValid, long_branch-IsValid, branch_on_bit-IsValid, save_z_indirect-IsValid,
}
use mega65_core.Emulator.Invariant.AllKeep.{AllKeep, none_left, ◌⊳◌}

module _ ⦃dma : DmaController⦄ (stores : StoresBytes dma) where
  module _ (t : Trace) where
    pub row_8-keeps : AllKeep t row_8
    unfolding row_8
    row_8-keeps =
        (branch-IsValid _)
        ⊳ (save-IsValid stores Register.a 2 addr_izpx addr_izpx-IsMode)
        ⊳ (long_branch-IsValid _ _ _)
        ⊳ (save-IsValid stores Register.y 2 addr_zp addr_zp-IsMode)
        ⊳ (save-IsValid stores Register.a 2 addr_zp addr_zp-IsMode)
        ⊳ (save-IsValid stores Register.x 2 addr_zp addr_zp-IsMode)
        ⊳ (smb-IsValid stores 0 addr_zp addr_zp-IsMode)
        ⊳ (decrement-IsValid Register.y)
        ⊳ bit_immediate-IsValid
        ⊳ (transfer-IsValid Register.x Register.a)
        ⊳ (save-IsValid stores Register.y 3 addr_abs addr_abs-IsMode)
        ⊳ (save-IsValid stores Register.a 3 addr_abs addr_abs-IsMode)
        ⊳ (save-IsValid stores Register.x 3 addr_abs addr_abs-IsMode)
        ⊳ (branch_on_bit-IsValid 0 1)
        ⊳ none_left

    pub row_9-keeps : AllKeep t row_9
    unfolding row_9
    row_9-keeps =
        (branch-IsValid _)
        ⊳ (save_indirect-IsValid stores addr_izpy addr_izpy-IsMode)
        ⊳ (save_z_indirect-IsValid stores)
        ⊳ (long_branch-IsValid _ _ _)
        ⊳ (save-IsValid stores Register.y 2 addr_zpx addr_zpx-IsMode)
        ⊳ (save-IsValid stores Register.a 2 addr_zpx addr_zpx-IsMode)
        ⊳ (save-IsValid stores Register.x 2 addr_zpy addr_zpy-IsMode)
        ⊳ (smb-IsValid stores 1 addr_zp addr_zp-IsMode)
        ⊳ (transfer-IsValid Register.y Register.a)
        ⊳ (save-IsValid stores Register.a 3 addr_absy addr_absy-IsMode)
        ⊳ (transfer_quietly-IsValid Register.x Register.spl)
        ⊳ (save-IsValid stores Register.z 3 addr_abs addr_abs-IsMode)
        ⊳ (save-IsValid stores Register.a 3 addr_absx addr_absx-IsMode)
        ⊳ (save-IsValid stores Register.z 3 addr_absx addr_absx-IsMode)
        ⊳ (branch_on_bit-IsValid 1 1)
        ⊳ none_left

    pub row_a-keeps : AllKeep t row_a
    unfolding row_a
    row_a-keeps =
        (load_immediate-IsValid Register.y)
        ⊳ (load_indirect-IsValid addr_izpx addr_izpx-IsMode)
        ⊳ (load_immediate-IsValid Register.x)
        ⊳ (load_immediate-IsValid Register.z)
        ⊳ (load-IsValid Register.y 2 addr_zp addr_zp-IsMode)
        ⊳ (load-IsValid Register.a 2 addr_zp addr_zp-IsMode)
        ⊳ (load-IsValid Register.x 2 addr_zp addr_zp-IsMode)
        ⊳ (smb-IsValid stores 2 addr_zp addr_zp-IsMode)
        ⊳ (transfer-IsValid Register.a Register.y)
        ⊳ (load_immediate-IsValid Register.a)
        ⊳ (transfer-IsValid Register.a Register.x)
        ⊳ (load-IsValid Register.y 3 addr_abs addr_abs-IsMode)
        ⊳ (load-IsValid Register.a 3 addr_abs addr_abs-IsMode)
        ⊳ (load-IsValid Register.x 3 addr_abs addr_abs-IsMode)
        ⊳ (branch_on_bit-IsValid 2 1)
        ⊳ none_left

    pub row_b-keeps : AllKeep t row_b
    unfolding row_b
    row_b-keeps =
        (branch-IsValid _)
        ⊳ (load_indirect-IsValid addr_izpy addr_izpy-IsMode)
        ⊳ (load_indirect-IsValid addr_izpz addr_izpz-IsMode)
        ⊳ (load-IsValid Register.y 2 addr_zpx addr_zpx-IsMode)
        ⊳ (load-IsValid Register.a 2 addr_zpx addr_zpx-IsMode)
        ⊳ (load-IsValid Register.x 2 addr_zpy addr_zpy-IsMode)
        ⊳ (smb-IsValid stores 3 addr_zp addr_zp-IsMode)
        ⊳ (change_flag-IsValid _ (λ r h. ground (arith, h)))
        ⊳ (load-IsValid Register.a 3 addr_absy addr_absy-IsMode)
        ⊳ (transfer-IsValid Register.spl Register.x)
        ⊳ (load-IsValid Register.y 3 addr_absx addr_absx-IsMode)
        ⊳ (load-IsValid Register.a 3 addr_absx addr_absx-IsMode)
        ⊳ (load-IsValid Register.x 3 addr_absy addr_absy-IsMode)
        ⊳ (branch_on_bit-IsValid 3 1)
        ⊳ none_left
