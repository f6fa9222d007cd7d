-- ===== src/Emulator/Alu/Laws.antt =====
-- What `adc`, `sbc` and the comparison of src/tools/hyppotest.c compute, against arithmetic.
use mega65_core.Prelude.{
  ℕ, ◌+◌, ◌-◌, ◌*◌, ◌%◌, ◌≤◌, ◌<◌, ◌≡◌, ◌↔◌, ◌⊎◌, ◌∙◌, bit_and, bit_xor, true, false, arith, min,
  bool_to_nat, byte,
}
use mega65_core.Prelude.Bits.{bit, bit-and, bit-xor, bit_and-pow, bit_7}
use mega65_core.Emulator.State.{Regs, Machine}
use mega65_core.Emulator.Alu.{adc_regs, sbc, update_cmp_flags}

-- The signed reading of a byte is `v - 256` from 0x80 on. To stay within ℕ, 128 is added.
abbrev pub excess : ℕ → ℕ
excess v = byte (v + 128)

-- On bytes, in binary mode, the sum of the operand, the accumulator and the carry is split into the new
-- accumulator and the new carry.
pub adc_sum :
    (v : ℕ) (r : Regs)
    → v < 256
    → r.a < 256
    → (adc_regs v r).a + 256 * bool_to_nat (adc_regs v r).flag_c ≡ v + r.a + bool_to_nat r.flag_c
unfolding adc_regs
adc_sum v r hv ha = ground arith

-- The test for overflow reads the top bits of the operands and of the sum.
overflow_test :
    (a v r : ℕ)
    → bit_and (bit_and (bit_xor a r) (bit_xor v r)) 0x80
      ≡ min ((bit 7 a + bit 7 r) % 2) ((bit 7 v + bit 7 r) % 2) * 0x80
overflow_test a v r = bit_and-pow 7 _ ∙ rw (bit-and, bit-xor 7 a r, bit-xor 7 v r)

-- On bytes, in binary mode, the overflow flag is set exactly when the signed sum of the operand, the accumulator and the
-- carry does not fit a signed byte. With 128 added to each operand, the range is 128 to 383.
pub adc_overflow :
    (v : ℕ) (r : Regs)
    → v < 256
    → r.a < 256
    → let sum = excess v + excess r.a + bool_to_nat r.flag_c in
      ((adc_regs v r).flag_v ≡ true) ↔ ((sum < 128) ⊎ (383 < sum))
unfolding adc_regs
adc_overflow v r hv ha = ground (
  arith,
  overflow_test r.a v (v + r.a + bool_to_nat r.flag_c),
  bit_7 v,
  bit_7 r.a,
  bit_7 (v + r.a + bool_to_nat r.flag_c),
)

-- On bytes, in binary mode, `sbc` is a subtraction with borrow: the carry says that nothing was borrowed.
pub sbc_difference :
    (v : ℕ) (m : Machine)
    → v < 256
    → m.regs.a < 256
    → m.regs.flag_d ≡ false
    → let r = (sbc v m).1.regs in
      r.a + v + 1 + 256 * bool_to_nat r.flag_c ≡ m.regs.a + bool_to_nat m.regs.flag_c + 256
unfolding sbc adc_regs
sbc_difference v m hv ha d = ground arith

-- The comparison of the byte `w` with the byte `v`: the zero flag says that they are equal. The carry is the negation
-- of the top bit of the difference, so it says `v ≤ w` only where they are less than 128 apart.
pub compare_flags :
    (w v : ℕ) (m : Machine)
    → w < 256
    → v < 256
    → let r = (update_cmp_flags (byte (w + 256 - v)) m).1.regs in
      ((r.flag_z ≡ true) ↔ (w ≡ v))
      × ((r.flag_c ≡ true) ↔ (((v ≤ w) × (w < v + 128)) ⊎ (w + 128 < v)))
unfolding update_cmp_flags
compare_flags w v m hw hv = ground arith
