-- ===== src/Emulator/Disassemble/Targets.antt =====
-- The addresses that src/tools/hyppotest.c shows for branches, against where the branches go.
use mega65_core.Prelude.{ℕ, ◌+◌, ◌-◌, ◌^◌, ◌≡◌, refl, arith, Bool, true, ◌++◌, ◌==◌, word32}
use mega65_core.Prelude.Bits.{bit}
use mega65_core.Prelude.Printing.{codes, hex}
use mega65_core.Emulator.State.{Regs, Machine}
use mega65_core.Emulator.Memory.{read_memory}
use mega65_core.Emulator.Addressing.{addr_zp, rel8_delta}
use mega65_core.Emulator.Instructions.Moves.{advance, set_len}
use mega65_core.Emulator.Instructions.Flow.{branch, branch_on_bit}
use mega65_core.Emulator.Disassemble.Operands.{disassemble_rel8, disassemble_zp_rel8}

-- The address that is shown for a short branch is the program counter after the branch is taken, where
-- the entry of the log has the program counter from before.
pub disassemble_rel8-branch :
    (taken : Regs → Bool) (m : Machine)
    → m.log.pc ≡ m.regs.pc
    → taken m.regs ≡ true
    → disassemble_rel8 m.log ≡ codes "$" ++ hex 4 (branch taken m).1.regs.pc
unfolding disassemble_rel8 branch advance set_len
disassemble_rel8-branch taken m e h =
    let sum : m.log.pc + 2 + rel8_delta (m.log.bytes 1)
        ≡ m.regs.pc + (2 + rel8_delta (m.log.bytes 1)) =
      omega (arith, e) in
    rw h (rw sum refl)

-- The address that is shown for BBRk and BBSk is one less, modulo 2 ^ 32, than the program counter after
-- the branch is taken.
pub disassemble_zp_rel8-branch_on_bit :
    (k wanted : ℕ) (m : Machine)
    → m.log.pc ≡ m.regs.pc
    → (bit k (read_memory (addr_zp m).0 (addr_zp m).1).0 == wanted) ≡ true
    → let target = (branch_on_bit k wanted m).1.regs.pc in
      disassemble_zp_rel8 m.log
      ≡ codes "$"
        ++ (hex 2 (m.log.bytes 1) ++ (codes ",$" ++ hex 4 (word32 (target + (2 ^ 32 - 1)))))
unfolding disassemble_zp_rel8 branch_on_bit advance set_len read_memory addr_zp
disassemble_zp_rel8-branch_on_bit k wanted m e h =
    let d = rel8_delta (m.log.bytes 2) in
    let shown_address : word32 (m.log.pc + 2 + d)
        ≡ word32 (word32 (word32 (m.regs.pc + d) + 3) + (2 ^ 32 - 1)) =
      omega (arith, e) in
    rw h (rw shown_address refl)
