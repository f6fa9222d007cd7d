-- ===== src/Emulator/Instructions/Logic.antt =====
-- Logic, comparison, arithmetic and the flags.
use mega65_core.Prelude.{ℕ, ◌+◌, ◌-◌, ◌^◌, bit_and, bit_or, bit_xor, byte, ◌==◌}
use mega65_core.Emulator.State.{Regs, M, ◌>>=◌, ◌>>◌, modify_regs, get_regs}
use mega65_core.Emulator.Memory.{DmaController, read_memory, write_mem16}
use mega65_core.Emulator.Alu.{update_nz, update_bit_flags, update_cmp_flags, adc, sbc}
use mega65_core.Emulator.Instructions.Moves.{Register, get, put, advance, set_len, operand}

abbrev fetch : M ℕ → M ℕ
fetch mode = mode >>= read_memory

-- `v op= a; update_nz(v); a = v`, where the operation keeps within eight bits.
abbrev combine : (ℕ → ℕ → ℕ) → ℕ → M (Unit {0})
combine op v = do r ← get_regs; update_nz (op v r.a); put Register.a (byte (op v r.a))

unfoldable pub ora : ℕ → M ℕ → M (Unit {0})
ora n mode = do set_len n; advance n; v ← fetch mode; combine bit_or v

unfoldable pub ora_immediate : M (Unit {0})
ora_immediate = do v ← operand 1; combine bit_or v; set_len 2; advance 2

unfoldable pub conjoin : ℕ → M ℕ → M (Unit {0})
conjoin n mode = do v ← fetch mode; combine bit_and v; set_len n; advance n

unfoldable pub conjoin_immediate : M (Unit {0})
conjoin_immediate = do v ← operand 1; combine bit_and v; set_len 2; advance 2

unfoldable pub eor : ℕ → M ℕ → M (Unit {0})
eor n mode = do v ← fetch mode; combine bit_xor v; set_len n; advance n

unfoldable pub eor_immediate : M (Unit {0})
eor_immediate = do v ← operand 1; combine bit_xor v; set_len 2; advance 2

unfoldable pub bit_test : ℕ → M ℕ → M (Unit {0})
bit_test n mode = do set_len n; advance n; v ← fetch mode; update_bit_flags v

-- BIT # leaves N and V alone.
unfoldable pub bit_immediate : M (Unit {0})
bit_immediate = do
  set_len 2
  advance 2
  v ← operand 1
  modify_regs (λ r. record r { flag_z = bit_and v r.a == 0 })

-- CMP, CPX, CPY: `reg - v`, converted to an `unsigned char`.
abbrev compare_with : Register → ℕ → M (Unit {0})
compare_with reg v = do w ← get reg; update_cmp_flags (byte (w + 256 - v))

unfoldable pub compare_memory : Register → ℕ → M ℕ → M (Unit {0})
compare_memory reg n mode = do v ← fetch mode; compare_with reg v; set_len n; advance n

unfoldable pub compare_immediate : Register → M (Unit {0})
compare_immediate reg = do v ← operand 1; compare_with reg v; set_len 2; advance 2

unfoldable pub adc_memory : ℕ → M ℕ → M (Unit {0})
adc_memory n mode = do v ← fetch mode; adc v; set_len n; advance n

unfoldable pub adc_immediate : M (Unit {0})
adc_immediate = do v ← operand 1; adc v; set_len 2; advance 2

unfoldable pub sbc_memory : ℕ → M ℕ → M (Unit {0})
sbc_memory n mode = do v ← fetch mode; sbc v; set_len n; advance n

unfoldable pub sbc_immediate : M (Unit {0})
sbc_immediate = do v ← operand 1; sbc v; set_len 2; advance 2

-- INC A, INX, INY and INZ; DEC A, DEX and DEY.
unfoldable pub increment : Register → M (Unit {0})
increment reg = do
  v ← get reg
  put reg (byte (v + 1))
  update_nz (byte (v + 1))
  advance 1
  set_len 1

unfoldable pub decrement : Register → M (Unit {0})
decrement reg = do
  v ← get reg
  put reg (byte (v + 256 - 1))
  update_nz (byte (v + 256 - 1))
  advance 1
  set_len 1

-- CLC, SEC, CLI, SEI, CLD, SED, CLV and SEE.
unfoldable pub change_flag : (Regs → Regs) → M (Unit {0})
change_flag f = do modify_regs f; advance 1; set_len 1

module _ ⦃dma : DmaController⦄ where
  -- The second evaluation of the mode, for the write, and the conversion of `v`.
  abbrev pub write_back : M ℕ → ℕ → M (Unit {0})
  write_back mode v = do address ← mode; write_mem16 address (byte v)

  unfoldable pub tsb : ℕ → M ℕ → M (Unit {0})
  tsb n mode = do
    set_len n
    advance n
    v ← fetch mode
    r ← get_regs
    modify_regs (λ r. record r { flag_z = bit_and v r.a == 0 })
    write_back mode (bit_or v r.a)

  unfoldable pub trb : ℕ → M ℕ → M (Unit {0})
  trb n mode = do
    set_len n
    advance n
    v ← fetch mode
    r ← get_regs
    modify_regs (λ r. record r { flag_z = bit_and v r.a == 0 })
    write_back mode (bit_and v (0xff - r.a))

  -- RMBk and SMBk.
  unfoldable pub rmb : ℕ → M ℕ → M (Unit {0})
  rmb k mode = do v ← fetch mode; write_back mode (bit_and v (0xff - 2 ^ k)); set_len 2; advance 2

  unfoldable pub smb : ℕ → M ℕ → M (Unit {0})
  smb k mode = do v ← fetch mode; write_back mode (bit_or v (2 ^ k)); set_len 2; advance 2

  -- DEC and INC of memory. INC masks `v` before the write in two of its modes, which makes no
  -- difference to the byte written nor to the flags.
  unfoldable pub dec_memory : ℕ → M ℕ → M (Unit {0})
  dec_memory n mode = do
    set_len n
    advance n
    v ← fetch mode
    write_back mode (v + 256 - 1)
    update_nz (v + 256 - 1)

  unfoldable pub inc_memory : ℕ → M ℕ → M (Unit {0})
  inc_memory n mode = do
    set_len n
    advance n
    v ← fetch mode
    write_back mode (v + 1)
    update_nz (v + 1)
