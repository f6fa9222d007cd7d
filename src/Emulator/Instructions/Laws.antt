-- ===== src/Emulator/Instructions/Laws.antt =====
-- What the instructions of src/tools/hyppotest.c do to the registers, against the processor.
use mega65_core.Prelude.{
  ℕ, zero, suc, ◌+◌, ◌*◌, ◌/◌, ◌%◌, ◌^◌, ◌&&◌, not, lt→ltb, ◌≤◌, ◌<◌, ◌≡◌, refl, ap, ◌∙◌, Bool,
  true, false, arith, word32, bool_to_nat, ◌==◌, ltb, if◌then◌else◌, bit_and, bit_or,
}
use mega65_core.Prelude.Bits.{bit, bit-and, bit-or}
use mega65_core.Emulator.State.{Regs, Machine, flags_byte, set_flags}
use mega65_core.Emulator.Memory.{read_memory, memory_blame, is_mapped}
use mega65_core.Emulator.Addressing.{addr_izpz32, rel8_delta, rel16_delta}
use mega65_core.Emulator.Alu.{update_nz}
use mega65_core.Emulator.Stack.{move_up, note_pop, read_top, blame_top, stack_pop, stack_pop_ext}
use mega65_core.Emulator.Instructions.Moves.{set_register, advance, set_len, pull_flags, plp}
use mega65_core.Emulator.Instructions.Shifts.{rol_a, ror_a}
use mega65_core.Emulator.Instructions.Flow.{branch, long_branch, low_operand, map, map_regs}

bool_to_nat-le : (b : Bool) → bool_to_nat b ≤ 1
bool_to_nat-le true = omega arith
bool_to_nat-le false = omega arith

digit : (b : Bool) → (bool_to_nat b == 1) ≡ b
digit true = refl
digit false = refl

-- The bits of the byte `flags`.
flags_byte-bits :
    (r : Regs)
    → (bit 0 (flags_byte r) ≡ bool_to_nat r.flag_c)
      × (bit 1 (flags_byte r) ≡ bool_to_nat r.flag_z)
      × (bit 2 (flags_byte r) ≡ bool_to_nat r.flag_i)
      × (bit 3 (flags_byte r) ≡ bool_to_nat r.flag_d)
      × (bit 4 (flags_byte r) ≡ bool_to_nat r.flag_b)
      × (bit 5 (flags_byte r) ≡ bool_to_nat r.flag_e)
      × (bit 6 (flags_byte r) ≡ bool_to_nat r.flag_v)
      × (bit 7 (flags_byte r) ≡ bool_to_nat r.flag_n)
unfolding bit flags_byte
flags_byte-bits r = omega (
  arith,
  bool_to_nat-le r.flag_c,
  bool_to_nat-le r.flag_z,
  bool_to_nat-le r.flag_i,
  bool_to_nat-le r.flag_d,
  bool_to_nat-le r.flag_b,
  bool_to_nat-le r.flag_e,
  bool_to_nat-le r.flag_v,
  bool_to_nat-le r.flag_n,
)

-- Writing the byte `flags` back leaves every register as it is.
set_flags-flags_byte : (r : Regs) → set_flags (flags_byte r) r ≡ r
unfolding set_flags
set_flags-flags_byte r =
    let (c, z, i, d, b, e, v, n) = flags_byte-bits r in
    rw (c, z, i, d, b, e, v, n)
      (λ k. record r {
        flag_c = digit r.flag_c k;
        flag_z = digit r.flag_z k;
        flag_i = digit r.flag_i k;
        flag_d = digit r.flag_d k;
        flag_b = digit r.flag_b k;
        flag_e = digit r.flag_e k;
        flag_v = digit r.flag_v k;
        flag_n = digit r.flag_n k;
      })

move_up-flags :
    (n : ℕ) (m : Machine)
    → let r = (move_up n m).1.regs in (r.flag_e ≡ m.regs.flag_e) × (r.flag_b ≡ m.regs.flag_b)
unfolding move_up
move_up-flags n m = ground arith

stack_pop-flags :
    (m : Machine)
    → let r = (stack_pop m).1.regs in (r.flag_e ≡ m.regs.flag_e) × (r.flag_b ≡ m.regs.flag_b)
unfolding stack_pop stack_pop_ext note_pop read_top blame_top read_memory memory_blame
stack_pop-flags m = move_up-flags 1 m

-- The masks of PLP at the two bits.
mask_digits : (bit 5 0x30 ≡ 1) × (bit 4 0x30 ≡ 1) × (bit 5 0xcf ≡ 0) × (bit 4 0xcf ≡ 0)
unfolding bit
mask_digits = (refl, refl, refl, refl)

masked :
    (r : Regs)
    → (bit 5 (bit_and (flags_byte r) 0x30) ≡ bool_to_nat r.flag_e)
      × (bit 4 (bit_and (flags_byte r) 0x30) ≡ bool_to_nat r.flag_b)
masked r =
    let bits = flags_byte-bits r in
    (
      omega (arith, bit-and 5 (flags_byte r) 0x30, bits.5, bool_to_nat-le r.flag_e, mask_digits.0),
      omega (arith, bit-and 4 (flags_byte r) 0x30, bits.4, bool_to_nat-le r.flag_b, mask_digits.1),
    )

merged :
    (r : Regs) (w : ℕ)
    → (bit 5 (bit_or (flags_byte r) (bit_and w 0xcf)) ≡ bool_to_nat r.flag_e)
      × (bit 4 (bit_or (flags_byte r) (bit_and w 0xcf)) ≡ bool_to_nat r.flag_b)
merged r w =
    let bits = flags_byte-bits r in
    let low = bit_and w 0xcf in
    (
      omega (arith, bit-or 5 (flags_byte r) low, bit-and 5 w 0xcf, bits.5, mask_digits.2),
      omega (arith, bit-or 4 (flags_byte r) low, bit-and 4 w 0xcf, bits.4, mask_digits.3),
    )

-- PLP leaves E and B as they are, whatever byte it pulls.
pub plp_keeps_e_b :
    (m : Machine)
    → let r = (plp m).1.regs in (r.flag_e ≡ m.regs.flag_e) × (r.flag_b ≡ m.regs.flag_b)
unfolding plp pull_flags advance set_len set_flags
plp_keeps_e_b m =
    let m' = record m { regs = set_flags (bit_and (flags_byte m.regs) 0x30) m.regs } in
    let (e, b) = stack_pop-flags m' in
    let (in_e, in_b) = masked m.regs in
    let (out_e, out_b) = merged (stack_pop m').1.regs (stack_pop m').0 in
    (
      rw out_e (digit _ ∙ e ∙ rw in_e (digit m.regs.flag_e)),
      rw out_b (digit _ ∙ b ∙ rw in_b (digit m.regs.flag_b)),
    )

-- Rotating the accumulator, a byte, left and then right restores it and the carry.
pub ror_a-rol_a :
    (m : Machine)
    → m.regs.a < 256
    → let m' = (ror_a (rol_a m).1).1 in (m'.regs.a ≡ m.regs.a) × (m'.regs.flag_c ≡ m.regs.flag_c)
unfolding ror_a rol_a update_nz set_register advance set_len
ror_a-rol_a m h = ground arith

-- The bits of the offset that say which areas of 8KB are mapped.
area_bit :
    (low high zone : ℕ)
    → low < 256
    → zone < 4
    → (low + high * 256) / 2 ^ (12 + zone) % 2 ≡ high / 2 ^ (4 + zone) % 2
area_bit low high zero h k = omega arith
area_bit low high (suc zero) h k = omega arith
area_bit low high (suc (suc zero)) h k = omega arith
area_bit low high (suc (suc (suc zero))) h k = omega arith
area_bit low high (suc (suc (suc (suc zone)))) h k = absurd (omega arith)

lower_bit :
    (upper kept : Bool) (a x y z maplo zone : ℕ)
    → a < 256
    → y < 256
    → zone < 4
    → ((if upper then y + z * 256 else if kept then maplo else a + x * 256) / 2 ^ (12 + zone) % 2
        == 1)
      ≡ (if upper
          then z / 2 ^ (4 + zone) % 2 == 1
          else if kept
          then maplo / 2 ^ (12 + zone) % 2 == 1
          else x / 2 ^ (4 + zone) % 2 == 1)
lower_bit true kept a x y z maplo zone h k l = ap (λ (t : ℕ). t == 1) (area_bit y z zone k l)
lower_bit false true a x y z maplo zone h k l = refl
lower_bit false false a x y z maplo zone h k l = ap (λ (t : ℕ). t == 1) (area_bit a x zone h l)

map-maphi : (r : Regs) → (map_regs r).maphi ≡ r.maphi
unfolding map_regs
map-maphi r = ground arith

map-maplo :
    (r : Regs)
    → (map_regs r).maplo ≡ (
        if (r.in_hyper == 0) && not (r.z == 0x0f)
        then r.y + r.z * 256
        else if r.x == 0x0f
        then r.maplo
        else r.a + r.x * 256)
unfolding map_regs
map-maplo r = ground arith

-- Which areas are mapped after MAP, in all its cases, with A and Y bytes. Those of the upper half of
-- the addresses are the ones that were mapped before, whatever the registers hold. Those of the
-- lower half are what the bits 4 to 7 of X say, where X is not $0F; but outside the hypervisor, where Z is
-- not $0F, they are what the bits 4 to 7 of Z say, which are meant for the upper half.
pub map-is_mapped :
    (m : Machine) (low high : ℕ)
    → m.regs.a < 256
    → m.regs.y < 256
    → low < 0x8000
    → 0x8000 ≤ high
    → high < 0x10000
    → let r = m.regs in
      let r' = (map m).1.regs in
      let chosen = λ (v : ℕ). v / 2 ^ (4 + low / 2 ^ 13) % 2 == 1 in
      (is_mapped r' high ≡ is_mapped r high)
      × (is_mapped r' low ≡ (
          if (r.in_hyper == 0) && not (r.z == 0x0f)
          then chosen r.z
          else if r.x == 0x0f
          then is_mapped r low
          else chosen r.x))
unfolding map advance set_len is_mapped
map-is_mapped m low high ha hy l h k =
    let r = record m.regs { pc = word32 (m.regs.pc + 1) } in
    let zone : low / 2 ^ 13 < 4 = omega arith in
    let below = lt→ltb _ _ zone in
    let above : ltb (high / 2 ^ 13) 4 ≡ false = ground arith in
    rw (above, below, map-maphi r, map-maplo r)
      (
        refl,
        lower_bit ((r.in_hyper == 0) && not (r.z == 0x0f)) (r.x == 0x0f) r.a r.x r.y r.z r.maplo
            (low / 2 ^ 13) ha hy zone,
      )

-- A pointer of four bytes reaches no further than one of two: its address is below 0x10000.
addr_izpz32-lt : (m : Machine) → (addr_izpz32 m).0 < 0x10000
unfolding addr_izpz32
addr_izpz32-lt m = omega arith

-- The target of a short branch that is taken: the offset, a byte, counts from the next instruction, and is
-- 256 less from 0x80 on, modulo 2 ^ 32.
pub branch_target :
    (c : Regs → Bool) (m : Machine)
    → c m.regs ≡ true
    → m.log.bytes 1 < 256
    → let offset = m.log.bytes 1 in
      word32 ((branch c m).1.regs.pc + (if ltb offset 0x80 then 0 else 256))
      ≡ word32 (m.regs.pc + 2 + offset)
unfolding branch rel8_delta advance set_len
branch_target c m h k = rw h (ground arith)

-- The long branches that read one operand byte go to the same place from two machines with the
-- same registers and the same first operand byte, whatever the other byte is.
long_branch_low :
    (c : Regs → Bool) (base : ℕ) (m n : Machine)
    → m.regs ≡ n.regs
    → m.log.bytes 1 ≡ n.log.bytes 1
    → (long_branch c base low_operand m).1.regs ≡ (long_branch c base low_operand n).1.regs
unfolding long_branch advance set_len
long_branch_low c base m n r b = λ i.
    let k = r i in record k { pc = word32 (k.pc + (if c k then base + rel16_delta (b i) else 3)) }
