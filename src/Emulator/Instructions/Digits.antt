-- ===== src/Emulator/Instructions/Digits.antt =====
-- ORA, AND and EOR of src/tools/hyppotest.c on the bits of the accumulator.
use mega65_core.Prelude.{
  ℕ, zero, suc, ◌+◌, ◌%◌, ◌<◌, ◌≡◌, ◌∙◌, arith, byte, bit_and, bit_or, bit_xor, min, max,
}
use mega65_core.Prelude.Bits.{bit, bit-and, bit-or, bit-xor}
use mega65_core.Emulator.State.{Machine}
use mega65_core.Emulator.Alu.{update_nz}
use mega65_core.Emulator.Instructions.Moves.{set_register, advance, set_len}
use mega65_core.Emulator.Instructions.Logic.{ora_immediate, conjoin_immediate, eor_immediate}

-- The conversion to a byte keeps the lower eight bits.
bit-byte : (k x : ℕ) → k < 8 → bit k (byte x) ≡ bit k x
unfolding bit
bit-byte zero x h = omega arith
bit-byte (suc zero) x h = omega arith
bit-byte (suc (suc zero)) x h = omega arith
bit-byte (suc (suc (suc zero))) x h = omega arith
bit-byte (suc (suc (suc (suc zero)))) x h = omega arith
bit-byte (suc (suc (suc (suc (suc zero))))) x h = omega arith
bit-byte (suc (suc (suc (suc (suc (suc zero)))))) x h = omega arith
bit-byte (suc (suc (suc (suc (suc (suc (suc zero))))))) x h = omega arith
bit-byte (suc (suc (suc (suc (suc (suc (suc (suc k)))))))) x h = absurd (omega arith)

-- ORA, AND and EOR with an operand byte put into each of the eight bits of the accumulator the larger,
-- the smaller and the sum modulo 2 of the bits of the operand and of the accumulator before.
pub logic_bits :
    (m : Machine) (k : ℕ)
    → k < 8
    → let v = m.log.bytes 1 in
      let a = m.regs.a in
      (bit k (ora_immediate m).1.regs.a ≡ max (bit k v) (bit k a))
      × (bit k (conjoin_immediate m).1.regs.a ≡ min (bit k v) (bit k a))
      × (bit k (eor_immediate m).1.regs.a ≡ (bit k v + bit k a) % 2)
unfolding ora_immediate conjoin_immediate eor_immediate update_nz set_register advance set_len
logic_bits m k h =
    let v = m.log.bytes 1 in
    let a = m.regs.a in
    (
      bit-byte k (bit_or v a) h ∙ bit-or k v a,
      bit-byte k (bit_and v a) h ∙ bit-and k v a,
      bit-byte k (bit_xor v a) h ∙ bit-xor k v a,
    )
