-- ===== src/Emulator/Instructions/Shifts.antt =====
-- Shifts and rotations, of the accumulator and of memory.
use mega65_core.Prelude.{ℕ, ◌+◌, ◌*◌, ◌/◌, ◌%◌, Bool, leb, byte, ◌==◌, bool_to_nat}
use mega65_core.Emulator.State.{M, ◌>>=◌, ◌>>◌, modify_regs, get_regs}
use mega65_core.Emulator.Memory.{DmaController, read_memory}
use mega65_core.Emulator.Alu.{update_nz}
use mega65_core.Emulator.Instructions.Moves.{Register, put, advance, set_len}
use mega65_core.Emulator.Instructions.Logic.{write_back}

abbrev pub set_carry : Bool → M (Unit {0})
set_carry c = modify_regs (λ r. record r { flag_c = c })

-- `v << 1`, with the carry as bit 0; `v >> 1`, with the carry as bit 8 before.
abbrev pub rotated_left : ℕ → Bool → ℕ
rotated_left v c = v * 2 + bool_to_nat c

abbrev pub with_carry_above : ℕ → Bool → ℕ
with_carry_above v c = v + bool_to_nat c * 0x100

unfoldable pub asl_a : M (Unit {0})
asl_a = do
  r ← get_regs
  set_carry (leb 0x80 r.a)
  update_nz (r.a * 2)
  put Register.a (byte (r.a * 2))
  set_len 1
  advance 1

unfoldable pub rol_a : M (Unit {0})
rol_a = do
  r ← get_regs
  let v = rotated_left r.a r.flag_c
  set_carry (leb 0x100 v)
  update_nz v
  put Register.a (byte v)
  set_len 1
  advance 1

unfoldable pub lsr_a : M (Unit {0})
lsr_a = do
  r ← get_regs
  set_carry (r.a % 2 == 1)
  update_nz (r.a / 2)
  put Register.a (byte (r.a / 2))
  set_len 1
  advance 1

unfoldable pub ror_a : M (Unit {0})
ror_a = do
  r ← get_regs
  let v = with_carry_above r.a r.flag_c
  set_carry (v % 2 == 1)
  update_nz (v / 2)
  put Register.a (byte (v / 2))
  set_len 1
  advance 1

module _ ⦃dma : DmaController⦄ where
  -- The carry comes from the accumulator, as the source has it.
  unfoldable pub asl : ℕ → M ℕ → M (Unit {0})
  asl n mode = do
    r ← get_regs
    set_carry (leb 0x80 r.a)
    address ← mode
    v ← read_memory address
    update_nz (v * 2)
    write_back mode (v * 2)
    set_len n
    advance n

  unfoldable pub rol : ℕ → M ℕ → M (Unit {0})
  rol n mode = do
    address ← mode
    w ← read_memory address
    r ← get_regs
    let v = rotated_left w r.flag_c
    set_carry (leb 0x100 v)
    update_nz v
    write_back mode v
    set_len n
    advance n

  unfoldable pub lsr : ℕ → M ℕ → M (Unit {0})
  lsr n mode = do
    address ← mode
    v ← read_memory address
    set_carry (v % 2 == 1)
    update_nz (v / 2)
    write_back mode (v / 2)
    set_len n
    advance n

  unfoldable pub ror : ℕ → M ℕ → M (Unit {0})
  ror n mode = do
    address ← mode
    w ← read_memory address
    r ← get_regs
    let v = with_carry_above w r.flag_c
    set_carry (v % 2 == 1)
    update_nz (v / 2)
    write_back mode (v / 2)
    set_len n
    advance n
