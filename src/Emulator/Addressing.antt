-- ===== src/Emulator/Addressing.antt =====
-- The addressing modes of src/tools/hyppotest.c, `addr_abs` to `addr_iabsx`, and the branch offsets
-- `rel8_delta` and `rel16_delta`. Each mode leaves the pointer that it followed in the log.
use mega65_core.Prelude.{ℕ, ◌+◌, ◌-◌, ◌*◌, ◌^◌, ltb, if◌then◌else◌, byte, word16}
use mega65_core.Emulator.State.{Machine, M, ◌>>=◌, ◌>>◌, pure, modify_log}
use mega65_core.Emulator.Memory.{read_memory}

-- An `int`, which may be negative, as its 32-bit pattern.
unfoldable pub rel8_delta : ℕ → ℕ
rel8_delta c = if ltb c 0x80 then c else c + 2 ^ 32 - 0x100

unfoldable pub rel16_delta : ℕ → ℕ
rel16_delta c = if ltb c 0x8000 then c else c + 2 ^ 32 - 0x10000

-- The operand bytes of the instruction, and the page that `b` selects.
abbrev pub operand16 : Machine → ℕ
operand16 m = m.log.bytes 1 + m.log.bytes 2 * 256

abbrev pub base_page : Machine → ℕ
base_page m = m.log.regs.b * 256

unfoldable pub addr_abs : M ℕ
addr_abs m = (operand16 m, m)

unfoldable pub addr_zp : M ℕ
addr_zp m = (m.log.bytes 1 + base_page m, m)

unfoldable pub addr_zpx : M ℕ
addr_zpx m = (byte (m.log.bytes 1 + base_page m + m.regs.x), m)

unfoldable pub addr_zpy : M ℕ
addr_zpy m = (byte (m.log.bytes 1 + base_page m + m.regs.y), m)

-- Follows the 16-bit pointer at `pointer`, with `index` added to what it holds.
unfoldable pub deref : ℕ → ℕ → M ℕ
deref pointer index = do
  modify_log (λ l. record l { zp_pointer = pointer })
  lo ← read_memory pointer
  hi ← read_memory (pointer + 1)
  let target = word16 (lo + hi * 2 ^ 8 + index)
  modify_log (λ l. record l { zp_pointer_addr = target })
  pure target

unfoldable pub addr_izpy : M ℕ
unfolding deref
addr_izpy m = deref (m.log.bytes 1 + base_page m) m.regs.y m

unfoldable pub addr_izpx : M ℕ
unfolding deref
addr_izpx m = deref (byte (m.log.bytes 1 + m.regs.x) + base_page m) 0 m

unfoldable pub addr_deref16 : M ℕ
unfolding deref
addr_deref16 m = deref (operand16 m) 0 m

unfoldable pub addr_izpz : M ℕ
unfolding deref
addr_izpz m = deref (m.log.bytes 1 + base_page m) m.regs.z m

-- The pointer of four bytes; the source masks the sum to 16 bits all the same.
unfoldable pub addr_izpz32 : M ℕ
addr_izpz32 m =
    let pointer = m.log.bytes 1 + base_page m in
    let index = m.regs.z in
    (do
      modify_log (λ l. record l { zp_pointer = pointer })
      b0 ← read_memory pointer
      b1 ← read_memory (pointer + 1)
      b2 ← read_memory (pointer + 2)
      b3 ← read_memory (pointer + 3)
      let target = word16 (b0 + b1 * 2 ^ 8 + b2 * 2 ^ 16 + b3 * 2 ^ 24 + index)
      modify_log (λ l. record l { zp_pointer_addr = target })
      pure target)
      m

unfoldable pub addr_absx : M ℕ
addr_absx m = (word16 (operand16 m + m.regs.x), m)

unfoldable pub addr_absy : M ℕ
addr_absy m = (word16 (operand16 m + m.regs.y), m)

unfoldable pub addr_iabsx : M ℕ
unfolding addr_absx deref
addr_iabsx = do pointer ← addr_absx; deref pointer 0
