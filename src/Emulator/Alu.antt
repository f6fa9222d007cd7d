-- ===== src/Emulator/Alu.antt =====
-- The flags and the arithmetic of src/tools/hyppotest.c: `update_nz`, `update_bit_flags`,
-- `update_cmp_flags`, `adc` and `sbc`.
pub mod Laws
use mega65_core.Prelude.{
  ℕ, ◌+◌, ◌-◌, ◌*◌, ◌%◌, bit_and, bit_xor, Bool, true, false, not, ltb, leb, ◌==◌, if◌then◌else◌,
  byte, bool_to_nat,
}
use mega65_core.Prelude.Bits.{bit}
use mega65_core.Emulator.State.{Regs, Machine, M, modify_regs, set_error}

-- The parameter is an `unsigned char`.
abbrev pub nz_flags : ℕ → Regs → Regs
nz_flags v r = record r { flag_n = leb 0x80 (byte v); flag_z = byte v == 0 }

unfoldable pub update_nz : ℕ → M (Unit {0})
update_nz v = modify_regs (nz_flags v)

-- FLAG_N and FLAG_V are copied from `v`; FLAG_Z is tested on `v & a`.
unfoldable pub update_bit_flags : ℕ → M (Unit {0})
update_bit_flags v =
    modify_regs
      λ r. record r { flag_n = bit 7 v == 1; flag_v = bit 6 v == 1; flag_z = bit_and v r.a == 0 }

unfoldable pub update_cmp_flags : ℕ → M (Unit {0})
update_cmp_flags v =
    modify_regs (λ r. let r' = nz_flags v r in record r' { flag_c = not r'.flag_n })

-- The binary sum, on the registers.
unfoldable pub adc_regs : ℕ → Regs → Regs
adc_regs v regs =
    let r = v + regs.a + bool_to_nat regs.flag_c in
    record (nz_flags r regs) {
      flag_c = ltb 0xff r;
      flag_v = ltb 0 (bit_and (bit_and (bit_xor regs.a r) (bit_xor v r)) 0x80);
      a = byte r;
    }

-- Decimal mode is not implemented: it is an error.
unfoldable pub adc : ℕ → M (Unit {0})
unfolding adc_regs
adc v m =
    if m.regs.flag_d
    then (tt, record m { bus = set_error m.bus })
    else (tt, record m { regs = adc_regs v m.regs })

-- `~v` as an `unsigned char`.
unfoldable pub sbc : ℕ → M (Unit {0})
unfolding adc
sbc v = adc (0xff - v)
